-- ===== src/Core/Resolving.antt =====
-- Which stale completions an update resolves.
use openedx_completion_aggre.Prelude.{
  ◌+◌, ◌≤◌, ◌≡◌, sym, ap, ◌∙◌, inl, inr, Bool, true, false, List, [], ◌∷◌, In, if◌then◌else◌,
  Result-cases, arith,
}
use openedx_completion_aggre.Float.{Float}
use openedx_completion_aggre.Platform.{Time, CourseKey, BlockKey, User, Platform}
use openedx_completion_aggre.Models.{StaleCompletion, Database}
use openedx_completion_aggre.Models.Manager.{bulk_create_or_update}
use openedx_completion_aggre.Models.Preserving.{
  Preserves, Preserves-bind, KeptByWrites, Preserves-bulk_create_or_update, KeptByWrites-stale,
}
use openedx_completion_aggre.Core.{AggregationUpdater}
use openedx_completion_aggre.Core.Updater.{
  is_resolved_by, mark_resolved, resolve_stale_completions, calculate, update,
}

module _ (row : StaleCompletion) where
  is_resolved_by_recent :
      (user : User) (course_key : CourseKey) (changed_blocks : List BlockKey) (start : Time)
      → start ≤ row.modified
      → is_resolved_by user course_key changed_blocks start row ≡ false
  unfolding is_resolved_by
  is_resolved_by_recent user course_key changed_blocks start h = ground arith

  pub In-mark_resolved :
      (p : StaleCompletion → Bool) (rows : List StaleCompletion)
      → p row ≡ false
      → In row rows
      → In row (mark_resolved p rows)
  unfolding mark_resolved
  In-mark_resolved p [] h m = elim m [ ]
  In-mark_resolved p (x ∷ rows) h (inl e) =
      inl (e ∙ sym (ap (λ b. if b then record x { resolved = true } else x) (ap p (sym e) ∙ h)))
  In-mark_resolved p (x ∷ rows) h (inr m) = inr (In-mark_resolved p rows h m)

  pub In-mark_resolved_matching :
      (p : StaleCompletion → Bool) (rows : List StaleCompletion)
      → p row ≡ true
      → In row rows
      → In (record row { resolved = true }) (mark_resolved p rows)
  unfolding mark_resolved
  In-mark_resolved_matching p [] h m = elim m [ ]
  In-mark_resolved_matching p (x ∷ rows) h (inl e) = inl (
      sym (
        ap (λ b. if b then record x { resolved = true } else x) (ap p (sym e) ∙ h)
        ∙ ap (λ (y : StaleCompletion). record y { resolved = true }) (sym e)))
  In-mark_resolved_matching p (x ∷ rows) h (inr m) = inr (In-mark_resolved_matching p rows h m)

  module _ {F : Type 0} ⦃fl : Float F⦄ where
    -- The row is in the table.
    abbrev pub Present : Database F → Type 0
    Present db = In row db.stale_completions

    pub Present-KeptByWrites : (platform : Platform) → KeptByWrites platform Present
    Present-KeptByWrites platform = KeptByWrites-stale platform (λ rows next. In row rows)

    Present-resolve :
        (user : User) (course_key : CourseKey) (changed_blocks : List BlockKey) (start : Time)
        → start ≤ row.modified
        → Preserves Present (resolve_stale_completions user course_key changed_blocks start)
    unfolding resolve_stale_completions
    Present-resolve user course_key changed_blocks start recent db h =
        In-mark_resolved (is_resolved_by user course_key changed_blocks start) db.stale_completions
          (is_resolved_by_recent user course_key changed_blocks start recent) h

    -- Whatever an update does, and whether it raises or not, a stale completion that was recorded
    -- at or after the moment at which the update started stays in the table as it is: it is not
    -- marked resolved, whichever blocks are given as changed.
    pub update-In :
        (platform : Platform) (changed_blocks : List BlockKey) (force : Bool)
        (u : AggregationUpdater F) (db : Database F)
        → platform.clock db.ticks ≤ row.modified
        → In row db.stale_completions
        → In row (update platform changed_blocks force u db).1.stale_completions
    unfolding update
    update-In platform changed_blocks force u db recent h =
        elim (Result-cases
          (calculate platform changed_blocks force (record u { ticks = db.ticks + 1 }))) [
            | inl (e, raised) ↦ rw (raised, update) h
            | inr (done, found) ↦
                rw (found, update)
                  (Preserves-bind Present (bulk_create_or_update platform done.0) _
                    (Preserves-bulk_create_or_update Present platform
                      (Present-KeptByWrites platform) done.0)
                    (λ _.
                      Present-resolve u.user u.course_key changed_blocks (platform.clock db.ticks)
                        recent)
                    (record db { ticks = done.1.ticks }) h)
          ]
