-- ===== src/Core/Preserving.antt =====
-- The rule for what an update keeps, after the rule for the methods of models.py.
use openedx_completion_aggre.Prelude.{
  ℕ, ◌+◌, ◌≡◌, refl, sym, subst, inl, inr, Bool, true, ◌&&◌, ◌==◌, str_eq, Option, none, List,
  Result, Result-cases, ok, raise, item_not_found, type_error, String, str_eq_iff, and_left, ap,
  >>=-eq-ok, ok_inj,
}
use openedx_completion_aggre.Float.{Float}
use openedx_completion_aggre.Platform.{Time, CourseKey, BlockKey, User, Platform}
use openedx_completion_aggre.Models.{StaleCompletion, Database}
use openedx_completion_aggre.Models.Manager.{bulk_create_or_update}
use openedx_completion_aggre.Models.Preserving.{
  Preserves, Preserves-bind, KeptByWrites, Preserves-bulk_create_or_update,
}
use openedx_completion_aggre.Core.{AggregationUpdater}
use openedx_completion_aggre.Core.Updater.{
  CacheEntry, Lms, is_resolved_by, mark_resolved, resolve_stale_completions, course_structure, init,
  calculate, update, resolve_all, update_aggregators,
}

-- A test that holds only for rows of the learner.
abbrev pub IsFor : String → (StaleCompletion → Bool) → Type 0
IsFor name p = (row : StaleCompletion) → p row ≡ true → row.username ≡ name

-- What an update for the learner does to the database: the writes of the manager, readings of the
-- clock, and marking stale completions of the learner as resolved.
pub record KeptByUpdates {F : Type 0} ⦃fl : Float F⦄ (name : String) (P : Database F → Type 0)
    : Type 0 where
  pub writes : (platform : Platform) → KeptByWrites platform P
  pub readings : (db : Database F) (n : ℕ) → P db → P (record db { ticks = n })
  pub resolutions :
      (db : Database F) (p : StaleCompletion → Bool)
      → IsFor name p
      → P db
      → P (record db { stale_completions = mark_resolved p db.stale_completions })

is_resolved_by-IsFor :
    (user : User) (course_key : CourseKey) (changed_blocks : List BlockKey) (start : Time)
    → IsFor user.username (is_resolved_by user course_key changed_blocks start)
unfolding is_resolved_by
is_resolved_by-IsFor user course_key changed_blocks start row h =
    (str_eq_iff row.username user.username).0 (and_left (str_eq row.username user.username) _ h)

module _ {F : Type 0} ⦃fl : Float F⦄ where
  pub init-user :
      (platform : Platform) (lms : Lms F) (cached : Option CacheEntry) (user : User)
      (course_key : CourseKey) (root : Option BlockKey) (db : Database F) {u : AggregationUpdater F}
      → init platform lms cached user course_key root db ≡ ok u
      → u.user ≡ user
  unfolding init
  init-user platform lms cached user course_key root db {u} e =
      let (found, e₁, e₂) =
        >>=-eq-ok (course_structure platform lms cached user course_key root) _ e in
      sym (ap (λ (v : AggregationUpdater F). v.user) (ok_inj e₂))

  pub init-course_key :
      (platform : Platform) (lms : Lms F) (cached : Option CacheEntry) (user : User)
      (course_key : CourseKey) (root : Option BlockKey) (db : Database F) {u : AggregationUpdater F}
      → init platform lms cached user course_key root db ≡ ok u
      → u.course_key ≡ course_key
  unfolding init
  init-course_key platform lms cached user course_key root db {u} e =
      let (found, e₁, e₂) =
        >>=-eq-ok (course_structure platform lms cached user course_key root) _ e in
      sym (ap (λ (v : AggregationUpdater F). v.course_key) (ok_inj e₂))

module _ {F : Type 0} ⦃fl : Float F⦄ (P : Database F → Type 0) (user : User)
    (k : KeptByUpdates user.username P) where
  Preserves-update :
      (platform : Platform) (changed_blocks : List BlockKey) (force : Bool)
      (u : AggregationUpdater F)
      → u.user ≡ user
      → Preserves P (update platform changed_blocks force u)
  unfolding update resolve_stale_completions
  Preserves-update platform changed_blocks force u same db h =
      elim (Result-cases
        (calculate platform changed_blocks force (record u { ticks = db.ticks + 1 }))) [
          | inl (e, raised) ↦ rw (raised, update) (k.readings db (db.ticks + 1) h)
          | inr (done, found) ↦
              rw (found, update)
                (Preserves-bind P (bulk_create_or_update platform done.0) _
                  (Preserves-bulk_create_or_update P platform (k.writes platform) done.0)
                  (λ _ db' h'.
                    k.resolutions db'
                      (is_resolved_by u.user u.course_key changed_blocks (platform.clock db.ticks))
                      (subst
                        (λ (v : User). IsFor v.username (
                          is_resolved_by u.user u.course_key changed_blocks
                            (platform.clock db.ticks)))
                        same
                        (is_resolved_by-IsFor u.user u.course_key changed_blocks
                          (platform.clock db.ticks)))
                      h')
                  (record db { ticks = done.1.ticks }) (k.readings db done.1.ticks h))
        ]

  pub Preserves-update_aggregators :
      (platform : Platform) (lms : Lms F) (cached : Option CacheEntry) (course_key : CourseKey)
      (block_keys : List BlockKey) (force : Bool)
      → Preserves P (update_aggregators platform lms cached user course_key block_keys force)
  unfolding update_aggregators resolve_all
  Preserves-update_aggregators platform lms cached course_key block_keys force db h =
      by_cases (init platform lms cached user course_key none db) refl
    where
      resolved : P (resolve_all user course_key db).1
      resolved =
          k.resolutions db
            (λ stale. str_eq stale.username user.username && (stale.course_key == course_key))
            (λ row e.
              (str_eq_iff row.username user.username).0
                (and_left (str_eq row.username user.username) _ e))
            h

      by_cases :
          (r : Result (AggregationUpdater F))
          → init platform lms cached user course_key none db ≡ r
          → P (update_aggregators platform lms cached user course_key block_keys force db).1
      by_cases (ok u) e =
          rw (e, update_aggregators)
            (Preserves-update platform block_keys force u
              (init-user platform lms cached user course_key none db {u = u} e) db h)
      by_cases (raise item_not_found) e = rw (e, update_aggregators) resolved
      by_cases (raise type_error) e = rw (e, update_aggregators) resolved
      by_cases (raise other) e = rw (e, update_aggregators) h
