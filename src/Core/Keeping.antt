-- ===== src/Core/Keeping.antt =====
-- The rule for what a recalculation (core.py) keeps of the updater: what recording a total keeps.
use openedx_completion_aggre.Prelude.{
  ℕ, zero, suc, ◌≡◌, refl, inl, inr, Bool, List, [], ◌∷◌, lookup, Option-cases, Bool-cases, Result,
  ok, raise, ◌>>=◌,
}
use openedx_completion_aggre.Float.{Float}
use openedx_completion_aggre.Platform.{
  BlockKey, CompletionMode, excluded, completable, aggregator, unknown, Platform,
}
use openedx_completion_aggre.Utils.{Container, contains}
use openedx_completion_aggre.Core.{
  CompletionStats, AggregationUpdater, Action, completion_mode, no_stats, add_stats, record_total,
  recalculate, update_for_children, update_for_aggregator, update_for_block,
}

module _ {F : Type 0} ⦃fl : Float F⦄ (platform : Platform) (P : AggregationUpdater F → Type 0) where
  -- The call raises, or returns an updater with the property.
  abbrev pub Returns : Result (CompletionStats F × AggregationUpdater F) → Type 0
  Returns (raise e) = Unit {0}
  Returns (ok r) = P r.1

  abbrev pub Keeps : Action F (CompletionStats F) → Type 0
  Keeps m = (u : AggregationUpdater F) → P u → Returns (m u)

  Returns-bind :
      (r : Result (CompletionStats F × AggregationUpdater F))
      (next : CompletionStats F × AggregationUpdater F
        → Result (CompletionStats F × AggregationUpdater F))
      → Returns r
      → ((s : CompletionStats F) (u : AggregationUpdater F) → P u → Returns (next (s, u)))
      → Returns (r >>= next)
  Returns-bind (raise e) next h k = tt
  Returns-bind (ok r) next h k = k r.0 r.1 h

  Keeps-update_for_children :
      (visit : BlockKey → Action F (CompletionStats F))
      → ((k : BlockKey) → Keeps (visit k))
      → (ks : List BlockKey) (total : CompletionStats F)
      → Keeps (update_for_children visit ks total)
  unfolding update_for_children
  Keeps-update_for_children visit kept [] total u h = h
  Keeps-update_for_children visit kept (k ∷ ks) total u h =
      Returns-bind (visit k u) _ (kept k u h)
        (λ s v. Keeps-update_for_children visit kept ks (add_stats total s) v)

  module _ (force : Bool)
      (records : (k : BlockKey) (total : CompletionStats F) (u : AggregationUpdater F)
        → P u
        → P (record_total platform k total force u)) where
    Keeps-recalculate :
        (visit : BlockKey → Action F (CompletionStats F))
        → ((k : BlockKey) → Keeps (visit k))
        → (k : BlockKey) → Keeps (recalculate platform visit k force)
    Keeps-recalculate visit kept k u h = elim (Option-cases (lookup k u.course_blocks)) [
      | inl miss ↦ rw (miss, recalculate) tt
      | inr (entry, found) ↦
          rw (found, recalculate)
            (Returns-bind (update_for_children visit entry.children no_stats u) _
              (Keeps-update_for_children visit kept entry.children no_stats u h)
              (λ s v. records k s v))
    ]

    Keeps-update_for_aggregator :
        (visit : BlockKey → Action F (CompletionStats F))
        → ((k : BlockKey) → Keeps (visit k))
        → (k : BlockKey) (affected : Container)
        → Keeps (update_for_aggregator platform visit k affected force)
    unfolding update_for_aggregator
    Keeps-update_for_aggregator visit kept k affected u h =
        elim (Bool-cases (contains k affected)) [
          | inl hit ↦ rw (hit, update_for_aggregator) (Keeps-recalculate visit kept k u h)
          | inr out ↦ elim (Option-cases (lookup k u.aggregators)) [
            | inl miss ↦ rw (out, miss, update_for_aggregator) (Keeps-recalculate visit kept k u h)
            | inr (obj, found) ↦ rw (out, found, update_for_aggregator) h
          ]
        ]

    -- Whatever recording a total keeps, a recalculation that returns keeps.
    pub Keeps-update_for_block :
        (limit : ℕ) (affected : Container) (k : BlockKey)
        → Keeps (update_for_block platform limit affected force k)
    unfolding update_for_block
    Keeps-update_for_block zero affected k u h = tt
    Keeps-update_for_block (suc limit) affected k u h =
        by_mode (Keeps-update_for_block limit affected) (completion_mode platform k) refl
      where
        by_mode :
            ((j : BlockKey) → Keeps (update_for_block platform limit affected force j))
            → (mode : CompletionMode) → completion_mode platform k ≡ mode
            → Returns (update_for_block platform (suc limit) affected force k u)
        by_mode lower excluded e = rw (e, update_for_block) h
        by_mode lower completable e = rw (e, update_for_block) h
        by_mode lower aggregator e =
            rw (e, update_for_block)
              (Keeps-update_for_aggregator (update_for_block platform limit affected force) lower k
                affected u h)
        by_mode lower unknown e = rw (e, update_for_block) tt
