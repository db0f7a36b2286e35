-- ===== src/Core/Calculation.antt =====
-- `AggregationUpdater.calculate_updated_aggregators` (core.py) and the tree of a course.
use openedx_completion_aggre.Prelude.{
  ℕ, ◌<◌, ◌≡◌, refl, sym, ap, ◌∙◌, subst, List, [], ◌∷◌, Dict, lookup, some, arith, true, false, In,
  Bool, All, ok, map, ◌-◌, inl, inr,
}
use openedx_completion_aggre.Float.{Float}
use openedx_completion_aggre.Platform.{BlockKey, Platform}
use openedx_completion_aggre.Utils.{Container, bag_of_holding, contains}
use openedx_completion_aggre.Models.{Aggregator, BlockCompletion}
use openedx_completion_aggre.Core.{
  CompletionStats, CourseBlocksEntry, AggregationUpdater, stats_of, update_for_block,
  get_affected_aggregators,
}
use openedx_completion_aggre.Core.Tree.{
  Course, Courses, aggregator_block, root, depth, IsCourse, Lists, total,
}
use openedx_completion_aggre.Core.Recording.{Inv, Agrees}
use openedx_completion_aggre.Core.Totals.{update_for_block-total, Lists-mono}
use openedx_completion_aggre.Core.Updater.{objects, calculate}

-- The objects of `self.aggregators` carry their own keys, and those that may be taken as they are
-- agree with the tree.
pub record IsFresh {F : Type 0} ⦃fl : Float F⦄ (platform : Platform) (affected : Container)
    (u : AggregationUpdater F) : Type 0 where
  pub empty : u.updated_aggregators ≡ []
  pub keyed :
      (k : BlockKey) (obj : Aggregator F) → lookup k u.aggregators ≡ some obj → obj.block_key ≡ k
  pub fresh :
      (k : BlockKey) (cs : Courses) (obj : Aggregator F)
      → IsCourse platform u.course_blocks (aggregator_block k cs)
      → contains k affected ≡ false
      → lookup k u.aggregators ≡ some obj
      → stats_of obj ≡ total u.block_completions (aggregator_block k cs)

module _ {F : Type 0} ⦃fl : Float F⦄ (platform : Platform) where
  pub calculate_ok :
      (changed_blocks : List BlockKey) (force : Bool) (u : AggregationUpdater F)
      {stats : CompletionStats F} {u' : AggregationUpdater F}
      → update_for_block platform platform.recursion_limit
          (get_affected_aggregators u.course_blocks changed_blocks)
          force
          u.root_block
          u
        ≡ ok (stats, u')
      → calculate platform changed_blocks force u
        ≡ ok (objects u'.aggregators u'.updated_aggregators, u')
  unfolding calculate
  calculate_ok changed_blocks force u done = rw done

  pub Inv-start :
      (affected : Container) (u : AggregationUpdater F)
      → IsFresh platform affected u
      → Inv platform u.course_blocks u.block_completions affected u
  Inv-start affected u f = record {
    same_blocks = refl;
    same_completions = refl;
    fresh = f.fresh;
    keyed = f.keyed;
    written = λ k m. absurd (subst (In k) f.empty m);
  }

  -- The object is the updated aggregator of a registered block of the course, with the total of
  -- the tree below its block.
  pub record IsUpdated (blocks : Dict CourseBlocksEntry) (completions : Dict (BlockCompletion F))
      (obj : Aggregator F) : Type 0 where
    pub below : Courses
    pub course : IsCourse platform blocks (aggregator_block obj.block_key below)
    pub agrees : Agrees platform completions obj.block_key below obj

  module _ (blocks : Dict CourseBlocksEntry) (completions : Dict (BlockCompletion F))
      (affected : Container) (u : AggregationUpdater F)
      (inv : Inv platform blocks completions affected u) where
    IsUpdated-at :
        (k : BlockKey)
        → In k u.updated_aggregators
        → (obj : Aggregator F) × (lookup k u.aggregators ≡ some obj)
          × (obj.block_key ≡ k)
          × IsUpdated blocks completions obj
    IsUpdated-at k m =
        let (cs, obj, found, course, agrees) = inv.written k m in
        let e = inv.keyed k obj found in
        (
          obj,
          found,
          e,
          record {
            below = cs;
            course = subst (λ j. IsCourse platform blocks (aggregator_block j cs)) (sym e) course;
            agrees = subst (λ j. Agrees platform completions j cs obj) (sym e) agrees;
          },
        )

    objects-IsUpdated :
        (ks : List BlockKey)
        → ((k : BlockKey) → In k ks → In k u.updated_aggregators)
        → All (IsUpdated blocks completions) (objects u.aggregators ks)
    unfolding objects
    objects-IsUpdated [] h = tt
    objects-IsUpdated (k ∷ ks) h =
        let (obj, found, _, good) = IsUpdated-at k (h k (inl refl)) in
        rw (found, objects) (good, objects-IsUpdated ks (λ j m. h j (inr m)))

    In-objects :
        (ks : List BlockKey)
        → ((k : BlockKey) → In k ks → In k u.updated_aggregators)
        → (k : BlockKey) → In k ks
        → In k (map (λ (a : Aggregator F). a.block_key) (objects u.aggregators ks))
    unfolding objects
    In-objects [] h k m = elim m [ ]
    In-objects (j ∷ ks) h k m =
        let (obj, found, keyed, _) = IsUpdated-at j (h j (inl refl)) in
        rw (found, objects)
          (elim m [
            | inl e ↦ inl (e ∙ sym keyed)
            | inr m' ↦ inr (In-objects ks (λ i n. h i (inr n)) k m')
          ])

  -- Whichever blocks are given as changed: if the aggregators that are not affected are up to
  -- date, the calculation succeeds once the recursion limit exceeds the depth of the course, and
  -- each aggregator that it returns carries the total and the percentage of the tree below its
  -- block, and is registered. Where everything is recalculated by force, it returns every
  -- registered aggregator of the course.
  pub calculate-IsUpdated :
      (t : Course) (u : AggregationUpdater F) (changed_blocks : List BlockKey) (force : Bool)
      → IsFresh platform (get_affected_aggregators u.course_blocks changed_blocks) u
      → IsCourse platform u.course_blocks t
      → root t ≡ u.root_block
      → depth t < platform.recursion_limit
      → (updated : List (Aggregator F)) × (u' : AggregationUpdater F) × (calculate platform
            changed_blocks force u
          ≡ ok (updated, u'))
        × All (IsUpdated u.course_blocks u.block_completions) updated
        × (force ≡ true
            → get_affected_aggregators u.course_blocks changed_blocks ≡ bag_of_holding
            → Lists platform (map (λ (a : Aggregator F). a.block_key) updated) t)
  calculate-IsUpdated t u changed_blocks force fresh course e h =
      let affected = get_affected_aggregators u.course_blocks changed_blocks in
      let n : ℕ = platform.recursion_limit - 1 in
      let (u', done, out) =
        update_for_block-total platform u.course_blocks u.block_completions affected force t
          platform.recursion_limit n u (Inv-start affected u fresh) course (omega arith)
          (omega arith) in
      (
        objects u'.aggregators u'.updated_aggregators,
        u',
        calculate_ok changed_blocks force u (
            ap (λ b. update_for_block platform platform.recursion_limit affected force b u) (sym e)
            ∙ done),
        objects-IsUpdated u.course_blocks u.block_completions affected u' out.inv
            u'.updated_aggregators (λ k m. m),
        λ f b.
            Lists-mono platform _ _
              (In-objects u.course_blocks u.block_completions affected u' out.inv
                u'.updated_aggregators (λ k m. m))
              t (out.covers f b),
      )
