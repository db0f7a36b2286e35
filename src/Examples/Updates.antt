-- ===== src/Examples/Updates.antt =====
-- The updater on the course of the examples.
use openedx_completion_aggre.Prelude.{
  ℕ, ◌≡◌, refl, sym, ap, ◌∙◌, inl, inr, List, [], ◌∷◌, Dict, lookup, some, none, ◌==◌, ==_iff,
  Bool-cases, subst, Bool, true, All, map, ok, Option, elem, leb, arith,
}
use openedx_completion_aggre.Float.{thousandths}
use openedx_completion_aggre.Platform.{BlockKey, aggregator}
use openedx_completion_aggre.Utils.{bag_of_holding, contains, get_percent}
use openedx_completion_aggre.Models.{Aggregator}
use openedx_completion_aggre.Core.{
  CourseBlocksEntry, AggregationUpdater, CompletionStats, get_affected_aggregators, percent_of,
  completion_mode, stats_of, update_for_completable,
}
use openedx_completion_aggre.Core.Tree.{
  Course, Courses, aggregator_block, IsCourse, Lists, total, IsCourse-unique, cons, nil,
  completable_block, root,
}
use openedx_completion_aggre.Core.Updater.{calculate}
use openedx_completion_aggre.Core.Calculation.{IsFresh, IsUpdated, calculate-IsUpdated}
use openedx_completion_aggre.Core.Completion.{IsBounded, InRange, get_percent-percent_of}
use openedx_completion_aggre.Core.Saving.{IsSavable, calculate-IsSavable}
use openedx_completion_aggre.Core.Incremental.{IsIncrement, Under, get_affected_aggregators-IsFresh}
use openedx_completion_aggre.Examples.{platform, blocks, tree, completions, updater, learner}

pub tree-IsCourse : IsCourse platform blocks tree
unfolding lookup completion_mode
tree-IsCourse = (
  record { children = 2 ∷ 3 ∷ []; aggregators = [] },
  refl,
  refl,
  refl,
  ((record { children = 4 ∷ []; aggregators = 1 ∷ [] }, refl, refl, refl, (refl, tt)), (refl, tt)),
)

pub updater-IsFresh : IsFresh platform (get_affected_aggregators blocks []) updater
unfolding get_affected_aggregators lookup contains
updater-IsFresh = record { empty = refl; keyed = λ k obj h. cc; fresh = λ k cs obj c out h. cc }

pub completions-InRange : InRange completions
unfolding lookup
completions-InRange k c h = elim (Bool-cases (4 == k)) [
  | inl same ↦ ground arith
  | inr other ↦ ground arith
]

calculate-IsUpdated_example :
    (updated : List (Aggregator ℕ)) × (u' : AggregationUpdater ℕ) × (calculate platform [] true
        updater
      ≡ ok (updated, u'))
    × All (IsUpdated platform blocks completions) updated
    × (true ≡ true
        → get_affected_aggregators blocks [] ≡ bag_of_holding
        → Lists platform (map (λ (a : Aggregator ℕ). a.block_key) updated) tree)
calculate-IsUpdated_example =
    calculate-IsUpdated platform tree updater [] true updater-IsFresh tree-IsCourse refl
      (omega arith)

calculate-IsSavable_example :
    (updated : List (Aggregator ℕ)) × (u' : AggregationUpdater ℕ) × (calculate platform [] true
        updater
      ≡ ok (updated, u'))
    × All IsSavable updated
calculate-IsSavable_example =
    calculate-IsSavable platform tree updater [] true updater-IsFresh tree-IsCourse refl
      (omega arith) completions-InRange

abbrev half : CompletionStats ℕ
half = record { earned = 500; possible = 1000; last_modified = 20 }

half-IsBounded : IsBounded half
half-IsBounded = record { earned_nonneg = refl; earned_le = refl }

get_percent-percent_of_example :
    (get_percent 500 1000 ≡ ok (percent_of half))
    × (leb 0 (percent_of half) ≡ true)
    × (leb (percent_of half) 1000 ≡ true)
get_percent-percent_of_example = get_percent-percent_of half half-IsBounded

-- A course of one block, whose aggregator was stored before the block was completed.
abbrev leaf_blocks : Dict CourseBlocksEntry
leaf_blocks =
    (1, record { children = 3 ∷ []; aggregators = [] })
    ∷ (3, record { children = []; aggregators = 1 ∷ [] })
    ∷ []

abbrev leaf_tree : Course
leaf_tree = aggregator_block 1 (cons (completable_block 3) nil)

abbrev stored_aggregator : Aggregator ℕ
stored_aggregator = record {
  user = learner;
  course_key = 9;
  aggregation_name = "course";
  block_key = 1;
  earned = 0;
  possible = 1000;
  percent = 0;
  last_modified = 0;
  created = 5;
  modified = 5;
}

abbrev leaf_updater : AggregationUpdater ℕ
leaf_updater = record updater {
  course_blocks = leaf_blocks;
  block_completions = (3, record { block_key = 3; completion = 500; modified = 20 }) ∷ [];
  aggregators = (1, stored_aggregator) ∷ [];
}

leaf_tree-IsCourse : IsCourse platform leaf_blocks leaf_tree
unfolding lookup completion_mode
leaf_tree-IsCourse = (record { children = 3 ∷ []; aggregators = [] }, refl, refl, refl, (refl, tt))

leaf_tree_unique :
    (k : BlockKey) (cs : Courses)
    → IsCourse platform leaf_blocks (aggregator_block k cs)
    → leaf_tree ≡ aggregator_block k cs
unfolding lookup completion_mode
leaf_tree_unique k cs course =
    IsCourse-unique platform leaf_blocks leaf_tree (aggregator_block k cs) leaf_tree-IsCourse course
      (elim (Bool-cases (1 == k)) [
        | inl same ↦ (==_iff 1 k).0 same
        | inr other ↦ elim (Bool-cases (3 == k)) [
          | inl three ↦ absurd (not_aggregator k ((==_iff 3 k).0 three) course.1)
          | inr neither ↦ ground (arith, course.2, other, neither)
        ]
      ])
  where
    not_aggregator : (k : BlockKey) → 3 ≡ k → completion_mode platform k ≡ aggregator → ⊥
    not_aggregator k e h = let bad = ap (completion_mode platform) e ∙ h in cc

abbrev names_root : Option CourseBlocksEntry → Bool
names_root none = true
names_root (some entry) = elem 1 entry.aggregators

leaf_updater-IsIncrement : IsIncrement platform [] (3 ∷ []) leaf_updater
unfolding lookup total update_for_completable
leaf_updater-IsIncrement = record {
  empty = refl;
  keyed = λ k obj h. ground arith;
  stored = λ k cs obj course h.
      subst (λ t. stats_of obj ≡ total [] t) (leaf_tree_unique k cs course) (ground arith);
  unchanged = λ b h. ground arith;
  annotated = λ b k cs entry course m h.
      subst (λ t. Under b t → elem (root t) entry.aggregators ≡ true) (leaf_tree_unique k cs course)
        (λ n. elim n [
          | inl e ↦ ap names_root (sym h ∙ ap (λ x. lookup x leaf_blocks) e)
          | inr bad ↦ elim bad [ ]
        ])
        m;
}

get_affected_aggregators-IsFresh_example :
    IsFresh platform (get_affected_aggregators leaf_blocks (3 ∷ [])) leaf_updater
get_affected_aggregators-IsFresh_example =
    get_affected_aggregators-IsFresh platform [] (3 ∷ []) leaf_updater leaf_updater-IsIncrement
