-- ===== src/Core/Incremental.antt =====
-- `get_affected_aggregators` (core.py) after some blocks changed.
use openedx_completion_aggre.Prelude.{
  ◌≡◌, refl, ap, ◌∙◌, ◌⊎◌, inl, inr, List, [], ◌∷◌, Dict, lookup, some, Option, Option-cases, true,
  false, Bool-cases, elem, union, elem-union, ==_iff, ◌==◌, arith,
}
use openedx_completion_aggre.Float.{Float}
use openedx_completion_aggre.Platform.{BlockKey, Platform}
use openedx_completion_aggre.Utils.{contains}
use openedx_completion_aggre.Models.{Aggregator, BlockCompletion}
use openedx_completion_aggre.Core.{
  CompletionStats, CourseBlocksEntry, AggregationUpdater, stats_of, no_stats, add_stats,
  update_for_completable, affected_keys, get_affected_aggregators,
}
use openedx_completion_aggre.Core.Tree.{
  Course, Courses, excluded_block, completable_block, aggregator_block, nil, cons, IsCourse, total,
  total_all,
}
use openedx_completion_aggre.Core.Calculation.{IsFresh}

-- The block is completable and lies in the tree.
abbrev mutual
  pub Under : BlockKey → Course → Type 0
  Under b (excluded_block k) = ⊥
  Under b (completable_block k) = b ≡ k
  Under b (aggregator_block k cs) = UnderAny b cs

  pub UnderAny : BlockKey → Courses → Type 0
  UnderAny b nil = ⊥
  UnderAny b (cons c cs) = Under b c ⊎ UnderAny b cs

contains-affected_keys :
    (blocks : Dict CourseBlocksEntry) (k : BlockKey) (changed keys : List BlockKey)
    → elem k keys ≡ true
    → contains k (affected_keys blocks changed keys) ≡ true
unfolding affected_keys contains
contains-affected_keys blocks k [] keys h = h
contains-affected_keys blocks k (c ∷ rest) keys h = elim (Option-cases (lookup c blocks)) [
  | inl miss ↦ rw (miss, affected_keys)
  | inr (entry, hit) ↦
      rw (hit, affected_keys)
        (contains-affected_keys blocks k rest (union keys entry.aggregators)
          (elem-union k keys entry.aggregators ∙ rw h))
]

affected_keys-changed :
    (blocks : Dict CourseBlocksEntry) (k b : BlockKey) (changed keys : List BlockKey)
    → ((entry : CourseBlocksEntry) → lookup b blocks ≡ some entry → elem k entry.aggregators ≡ true)
    → elem b changed ≡ true
    → contains k (affected_keys blocks changed keys) ≡ true
unfolding affected_keys contains
affected_keys-changed blocks k b [] keys h m = cc
affected_keys-changed blocks k b (c ∷ rest) keys h m = elim (Option-cases (lookup c blocks)) [
  | inl miss ↦ rw (miss, affected_keys)
  | inr (entry, hit) ↦ elim (Bool-cases (b == c)) [
    | inl same ↦
        let hit' =
          ap {B = Option CourseBlocksEntry} (λ x. lookup x blocks) ((==_iff b c).0 same) ∙ hit in
        rw (hit, affected_keys)
          (contains-affected_keys blocks k rest (union keys entry.aggregators)
            (ground (arith, elem-union k keys entry.aggregators, h entry hit')))
    | inr other ↦
        rw (hit, affected_keys)
          (affected_keys-changed blocks k b rest (union keys entry.aggregators) h
            (ground (arith, m, other)))
  ]
]

get_affected_aggregators-changed :
    (blocks : Dict CourseBlocksEntry) (k b : BlockKey) (changed : List BlockKey)
    → ((entry : CourseBlocksEntry) → lookup b blocks ≡ some entry → elem k entry.aggregators ≡ true)
    → elem b changed ≡ true
    → contains k (get_affected_aggregators blocks changed) ≡ true
unfolding get_affected_aggregators
get_affected_aggregators-changed blocks k b [] h m = cc
get_affected_aggregators-changed blocks k b (c ∷ rest) h m =
    affected_keys-changed blocks k b (c ∷ rest) [] h m

module _ {F : Type 0} ⦃fl : Float F⦄ where
  module _ (before after : Dict (BlockCompletion F)) where
    abbrev SameAt : BlockKey → Type 0
    SameAt b = update_for_completable before b ≡ update_for_completable after b

    mutual
      unfolding total

      total-unchanged :
          (t : Course) → ((b : BlockKey) → Under b t → SameAt b) → total before t ≡ total after t
      total-unchanged (excluded_block k) same = refl
      total-unchanged (completable_block k) same = same k refl
      total-unchanged (aggregator_block k cs) same = total_all-unchanged cs no_stats same

      total_all-unchanged :
          (cs : Courses) (acc : CompletionStats F)
          → ((b : BlockKey) → UnderAny b cs → SameAt b)
          → total_all before cs acc ≡ total_all after cs acc
      total_all-unchanged nil acc same = refl
      total_all-unchanged (cons c cs) acc same =
          ap (λ s. total_all before cs (add_stats acc s))
            (total-unchanged c (λ b m. same b (inl m)))
          ∙ total_all-unchanged cs (add_stats acc (total after c)) (λ b m. same b (inr m))

  -- The updater was loaded with aggregators that were right for the completions `before`, and
  -- only the completions of the changed blocks differ since.
  pub record IsIncrement (platform : Platform) (before : Dict (BlockCompletion F))
      (changed_blocks : List BlockKey) (u : AggregationUpdater F) : Type 0 where
    pub empty : u.updated_aggregators ≡ []
    pub keyed :
        (k : BlockKey) (obj : Aggregator F) → lookup k u.aggregators ≡ some obj → obj.block_key ≡ k
    pub stored :
        (k : BlockKey) (cs : Courses) (obj : Aggregator F)
        → IsCourse platform u.course_blocks (aggregator_block k cs)
        → lookup k u.aggregators ≡ some obj
        → stats_of obj ≡ total before (aggregator_block k cs)
    pub unchanged :
        (b : BlockKey)
        → elem b changed_blocks ≡ false
        → update_for_completable before b ≡ update_for_completable u.block_completions b
    -- The annotation of a block in the structure names the aggregators above it.
    pub annotated :
        (b k : BlockKey) (cs : Courses) (entry : CourseBlocksEntry)
        → IsCourse platform u.course_blocks (aggregator_block k cs)
        → UnderAny b cs
        → lookup b u.course_blocks ≡ some entry
        → elem k entry.aggregators ≡ true

  -- If the stored aggregators were right before some blocks changed and the structure names the
  -- aggregators above each block, then every aggregator that is not affected by the changed
  -- blocks, by `get_affected_aggregators`, is still right: it may be taken as it is.
  pub get_affected_aggregators-IsFresh :
      (platform : Platform) (before : Dict (BlockCompletion F)) (changed_blocks : List BlockKey)
      (u : AggregationUpdater F)
      → IsIncrement platform before changed_blocks u
      → IsFresh platform (get_affected_aggregators u.course_blocks changed_blocks) u
  get_affected_aggregators-IsFresh platform before changed_blocks u i = record {
    empty = i.empty;
    keyed = i.keyed;
    fresh = λ k cs obj course out found.
        i.stored k cs obj course found
        ∙ total-unchanged before u.block_completions (aggregator_block k cs) (λ b m.
          i.unchanged b (elim (Bool-cases (elem b changed_blocks)) [
            | inr no_change ↦ no_change
            | inl change ↦
                let hit =
                  get_affected_aggregators-changed u.course_blocks k b changed_blocks
                    (λ entry h. i.annotated b k cs entry course m h) change in
                cc
          ]));
  }
