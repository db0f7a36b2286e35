-- ===== src/Core/Completion.antt =====
-- Bounds of the totals of a course, and of `get_percent` (utils.py).
use openedx_completion_aggre.Prelude.{
  ◌≡◌, subst, Dict, lookup, some, arith, true, ok, inl, inr, Option-cases,
}
use openedx_completion_aggre.Float.{Float}
use openedx_completion_aggre.Platform.{BlockKey}
use openedx_completion_aggre.Utils.{get_percent}
use openedx_completion_aggre.Models.{BlockCompletion}
use openedx_completion_aggre.Core.{
  CompletionStats, no_stats, add_stats, percent_of, update_for_completable,
}
use openedx_completion_aggre.Core.Tree.{
  Course, Courses, excluded_block, completable_block, aggregator_block, nil, cons, total, total_all,
}

module _ {F : Type 0} ⦃fl : Float F⦄ where
  -- 0 ≤ earned ≤ possible
  pub record IsBounded (s : CompletionStats F) : Type 0 where
    pub earned_nonneg : fl.le fl.nought s.earned ≡ true
    pub earned_le : fl.le s.earned s.possible ≡ true

  -- Every completion lies between 0.0 and 1.0, as compat.py says.
  abbrev pub InRange : Dict (BlockCompletion F) → Type 0
  InRange completions =
      (k : BlockKey) (c : BlockCompletion F)
      → lookup k completions ≡ some c
      → (fl.le fl.nought c.completion ≡ true) × (fl.le c.completion fl.unit ≡ true)

  IsBounded-no_stats : IsBounded no_stats
  IsBounded-no_stats = record { earned_nonneg = fl.le_refl _; earned_le = fl.le_refl _ }

  IsBounded-add_stats :
      (s t : CompletionStats F) → IsBounded s → IsBounded t → IsBounded (add_stats s t)
  IsBounded-add_stats s t p q = record {
    earned_nonneg =
        subst (λ z. fl.le z (fl.plus s.earned t.earned) ≡ true) (fl.plus-nought fl.nought)
          (fl.plus_mono fl.nought s.earned fl.nought t.earned p.earned_nonneg q.earned_nonneg);
    earned_le = fl.plus_mono s.earned s.possible t.earned t.possible p.earned_le q.earned_le;
  }

  module _ (completions : Dict (BlockCompletion F)) (range : InRange completions) where
    IsBounded-completable : (k : BlockKey) → IsBounded (update_for_completable completions k)
    unfolding update_for_completable
    IsBounded-completable k = elim (Option-cases (lookup k completions)) [
      | inl miss ↦
          rw (miss, update_for_completable)
            (record { earned_nonneg = fl.le_refl _; earned_le = fl.nought-le-unit })
      | inr (c, hit) ↦
          let bounds = range k c hit in
          rw (hit, update_for_completable)
            (record { earned_nonneg = bounds.0; earned_le = bounds.1 })
    ]

    mutual
      unfolding total

      -- The total of every block is bounded.
      pub total-IsBounded : (t : Course) → IsBounded (total completions t)
      total-IsBounded (excluded_block k) = IsBounded-no_stats
      total-IsBounded (completable_block k) = IsBounded-completable k
      total-IsBounded (aggregator_block k cs) = total_all-IsBounded cs no_stats IsBounded-no_stats

      pub total_all-IsBounded :
          (cs : Courses) (acc : CompletionStats F)
          → IsBounded acc
          → IsBounded (total_all completions cs acc)
      total_all-IsBounded nil acc h = h
      total_all-IsBounded (cons c cs) acc h =
          total_all-IsBounded cs _ (IsBounded-add_stats acc _ h (total-IsBounded c))

  -- Where 0 ≤ earned ≤ possible, the percentage that the updater stores is the one that
  -- `get_percent` returns, and it lies between 0.0 and 1.0.
  pub get_percent-percent_of :
      (s : CompletionStats F)
      → IsBounded s
      → (get_percent s.earned s.possible ≡ ok (percent_of s))
        × (fl.le fl.nought (percent_of s) ≡ true)
        × (fl.le (percent_of s) fl.unit ≡ true)
  unfolding get_percent
  get_percent-percent_of s h =
      let positive = fl.le_trans fl.nought s.earned s.possible h.earned_nonneg h.earned_le in
      (
        ground (
          arith,
          fl.lt_not-le s.possible s.earned,
          fl.lt_not-le fl.nought s.possible,
          fl.eq_le-le s.possible fl.nought,
        ),
        ground (
          arith,
          fl.lt_not-le fl.nought s.possible,
          fl.eq_le-le s.possible fl.nought,
          fl.over-nonneg s.earned s.possible,
          fl.nought-le-unit,
        ),
        ground (
          arith,
          fl.lt_not-le fl.nought s.possible,
          fl.eq_le-le s.possible fl.nought,
          fl.over-le_unit s.earned s.possible,
          fl.le_refl fl.unit,
        ),
      )
