-- ===== src/Core/Saving.antt =====
-- The validators of models.py on what the updater of core.py calculates.
use openedx_completion_aggre.Prelude.{
  ◌<◌, ◌≡◌, sym, ap, ◌∙◌, subst, List, [], ◌∷◌, Dict, All, Bool, true, Result, ok, ◌>>=◌, arith,
}
use openedx_completion_aggre.Float.{Float}
use openedx_completion_aggre.Platform.{BlockKey, Platform}
use openedx_completion_aggre.Models.{Aggregator, BlockCompletion}
use openedx_completion_aggre.Models.Manager.{
  validate_percent, validate_positive_float, pre_save, get_values,
}
use openedx_completion_aggre.Core.{
  CourseBlocksEntry, AggregationUpdater, get_affected_aggregators, percent_of, stats_of,
}
use openedx_completion_aggre.Core.Tree.{Course, aggregator_block, root, depth, IsCourse}
use openedx_completion_aggre.Core.Updater.{calculate}
use openedx_completion_aggre.Core.Completion.{
  IsBounded, InRange, total-IsBounded, get_percent-percent_of,
}
use openedx_completion_aggre.Core.Calculation.{IsFresh, IsUpdated, calculate-IsUpdated}

module _ {F : Type 0} ⦃fl : Float F⦄ where
  -- The row passes the validators of the model, and the bulk query computes the same percentage.
  pub record IsSavable (row : Aggregator F) : Type 0 where
    pub validated : pre_save row ≡ ok tt
    pub values : get_values row ≡ ok row

  validate_positive_float_ok :
      (a : F) → fl.le fl.nought a ≡ true → validate_positive_float a ≡ ok tt
  unfolding validate_positive_float
  validate_positive_float_ok a h = ground (arith, fl.lt_not-le a fl.nought)

  validate_percent_ok :
      (a : F) → fl.le fl.nought a ≡ true → fl.le a fl.unit ≡ true → validate_percent a ≡ ok tt
  unfolding validate_percent
  validate_percent_ok a p q = ground arith

  IsSavable-IsBounded :
      (row : Aggregator F)
      → IsBounded (stats_of row)
      → row.percent ≡ percent_of (stats_of row)
      → IsSavable row
  unfolding pre_save get_values
  IsSavable-IsBounded row h e =
      let (same, low, high) = get_percent-percent_of (stats_of row) h in
      let possible = fl.le_trans fl.nought row.earned row.possible h.earned_nonneg h.earned_le in
      record {
        validated =
            ap
              (λ m. m >>= λ _.
                validate_positive_float row.possible >>= λ _. validate_percent row.percent)
              (validate_positive_float_ok row.earned h.earned_nonneg)
            ∙ ap (λ m. m >>= λ _. validate_percent row.percent)
                (validate_positive_float_ok row.possible possible)
            ∙ validate_percent_ok row.percent (subst (λ x. fl.le fl.nought x ≡ true) (sym e) low)
                (subst (λ x. fl.le x fl.unit ≡ true) (sym e) high);
        values =
            ap (λ (m : Result F). m >>= λ percent. ok (record row { percent = percent })) same
            ∙ ap (λ (x : F). ok (record row { percent = x })) (sym e);
      }

  IsSavable-IsUpdated :
      (platform : Platform) (blocks : Dict CourseBlocksEntry)
      (completions : Dict (BlockCompletion F)) (range : InRange completions) (row : Aggregator F)
      → IsUpdated platform blocks completions row
      → IsSavable row
  IsSavable-IsUpdated platform blocks completions range row good =
      let t = aggregator_block row.block_key good.below in
      IsSavable-IsBounded row
        (subst IsBounded (sym good.agrees.stats) (total-IsBounded completions range t))
        (good.agrees.percent ∙ ap percent_of (sym good.agrees.stats))

  pub All-IsSavable :
      (platform : Platform) (blocks : Dict CourseBlocksEntry)
      (completions : Dict (BlockCompletion F)) (range : InRange completions)
      (rows : List (Aggregator F))
      → All (IsUpdated platform blocks completions) rows
      → All IsSavable rows
  All-IsSavable platform blocks completions range [] good = tt
  All-IsSavable platform blocks completions range (row ∷ rows) (h, good) = (
    IsSavable-IsUpdated platform blocks completions range row h,
    All-IsSavable platform blocks completions range rows good,
  )

  -- Where every completion of the learner lies between 0.0 and 1.0 and the aggregators that are
  -- not affected are up to date, the calculation succeeds, each aggregator that it returns passes
  -- the validators of the model, and the percentage that the bulk query computes for it (which
  -- raises when more is earned than possible) is the one it carries.
  pub calculate-IsSavable :
      (platform : Platform) (t : Course) (u : AggregationUpdater F) (changed_blocks : List BlockKey)
      (force : Bool)
      → IsFresh platform (get_affected_aggregators u.course_blocks changed_blocks) u
      → IsCourse platform u.course_blocks t
      → root t ≡ u.root_block
      → depth t < platform.recursion_limit
      → InRange u.block_completions
      → (updated : List (Aggregator F)) × (u' : AggregationUpdater F) × (calculate platform
            changed_blocks force u
          ≡ ok (updated, u'))
        × All IsSavable updated
  calculate-IsSavable platform t u changed_blocks force fresh course e h range =
      let (updated, u', done, good, _) =
        calculate-IsUpdated platform t u changed_blocks force fresh course e h in
      (
        updated,
        u',
        done,
        All-IsSavable platform u.course_blocks u.block_completions range updated good,
      )
