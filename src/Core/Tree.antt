-- ===== src/Core/Tree.antt =====
-- The course as a tree, and the completion that README.rst promises for each block: an excluded
-- block counts nothing, a completable block its own completion out of one, and an aggregator the
-- sums over its immediate children. The tree is what the structure of the updater unfolds to.
use openedx_completion_aggre.Prelude.{
  ℕ, suc, max, ◌≡◌, refl, ap, List, [], ◌∷◌, Dict, lookup, some, arith, true, In, Option,
}
use openedx_completion_aggre.Float.{Float}
use openedx_completion_aggre.Platform.{BlockKey, excluded, completable, aggregator, Platform}
use openedx_completion_aggre.Models.{BlockCompletion}
use openedx_completion_aggre.Core.{
  CompletionStats, CourseBlocksEntry, block_is_registered_aggregator, completion_mode, no_stats,
  add_stats, update_for_completable,
}

mutual
  pub data Course : Type 0 where
    excluded_block : BlockKey → Course
    completable_block : BlockKey → Course
    aggregator_block : BlockKey → Courses → Course

  pub data Courses : Type 0 where
    nil : Courses
    cons : Course → Courses → Courses

abbrev pub root : Course → BlockKey
root (excluded_block k) = k
root (completable_block k) = k
root (aggregator_block k cs) = k

abbrev pub roots : Courses → List BlockKey
roots nil = []
roots (cons c cs) = root c ∷ roots cs

abbrev mutual
  pub depth : Course → ℕ
  depth (excluded_block k) = 0
  depth (completable_block k) = 0
  depth (aggregator_block k cs) = suc (depth_all cs)

  pub depth_all : Courses → ℕ
  depth_all nil = 0
  depth_all (cons c cs) = max (depth c) (depth_all cs)

module _ (platform : Platform) (blocks : Dict CourseBlocksEntry) where
  -- The structure `blocks` unfolds to this tree at its root.
  abbrev mutual
    pub IsCourse : Course → Type 0
    IsCourse (excluded_block k) = completion_mode platform k ≡ excluded
    IsCourse (completable_block k) = completion_mode platform k ≡ completable
    IsCourse (aggregator_block k cs) =
        (entry : CourseBlocksEntry) × (completion_mode platform k ≡ aggregator)
        × (lookup k blocks ≡ some entry)
        × (entry.children ≡ roots cs)
        × AreCourses cs

    pub AreCourses : Courses → Type 0
    AreCourses nil = Unit
    AreCourses (cons c cs) = IsCourse c × AreCourses cs

-- Every registered aggregator of the tree is in the list.
module _ (platform : Platform) (keys : List BlockKey) where
  abbrev mutual
    pub Lists : Course → Type 0
    Lists (excluded_block k) = Unit
    Lists (completable_block k) = Unit
    Lists (aggregator_block k cs) =
        (block_is_registered_aggregator platform k ≡ true → In k keys) × ListsAll cs

    pub ListsAll : Courses → Type 0
    ListsAll nil = Unit
    ListsAll (cons c cs) = Lists c × ListsAll cs

module _ {F : Type 0} ⦃fl : Float F⦄ (completions : Dict (BlockCompletion F)) where
  unfoldable mutual
    pub total : Course → CompletionStats F
    total (excluded_block k) = no_stats
    total (completable_block k) = update_for_completable completions k
    total (aggregator_block k cs) = total_all cs no_stats

    pub total_all : Courses → CompletionStats F → CompletionStats F
    total_all nil acc = acc
    total_all (cons c cs) acc = total_all cs (add_stats acc (total c))

module _ (platform : Platform) (blocks : Dict CourseBlocksEntry) where
  -- A structure unfolds to at most one tree at a block.
  mutual
    pub IsCourse-unique :
        (s t : Course)
        → IsCourse platform blocks s
        → IsCourse platform blocks t
        → root s ≡ root t
        → s ≡ t
    IsCourse-unique (excluded_block j) (excluded_block k) p q e = ap excluded_block e
    IsCourse-unique (completable_block j) (completable_block k) p q e = ap completable_block e
    IsCourse-unique (aggregator_block j cs) (aggregator_block k ds) p q e =
        let entries = ap {B = Option CourseBlocksEntry} (λ j. lookup j blocks) e in
        let same : cs ≡ ds = AreCourses-unique cs ds p.4 q.4 (ground arith) in cc
    IsCourse-unique (excluded_block j) (completable_block k) p q e = ground arith
    IsCourse-unique (excluded_block j) (aggregator_block k ds) p q e = ground arith
    IsCourse-unique (completable_block j) (excluded_block k) p q e = ground arith
    IsCourse-unique (completable_block j) (aggregator_block k ds) p q e = ground arith
    IsCourse-unique (aggregator_block j cs) (excluded_block k) p q e = ground arith
    IsCourse-unique (aggregator_block j cs) (completable_block k) p q e = ground arith

    pub AreCourses-unique :
        (cs ds : Courses)
        → AreCourses platform blocks cs
        → AreCourses platform blocks ds
        → roots cs ≡ roots ds
        → cs ≡ ds
    AreCourses-unique nil nil p q e = refl
    AreCourses-unique nil (cons d ds) p q e = cc
    AreCourses-unique (cons c cs) nil p q e = cc
    AreCourses-unique (cons c cs) (cons d ds) p q e =
        let first = IsCourse-unique c d p.0 q.0 (ground arith) in
        let rest = AreCourses-unique cs ds p.1 q.1 (ground arith) in cc
