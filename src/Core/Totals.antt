-- ===== src/Core/Totals.antt =====
-- The updater computes the totals of the tree, whichever aggregators it may take from the table.
use openedx_completion_aggre.Prelude.{
  ℕ, suc, ◌≤◌, ◌-◌, ◌≡◌, refl, ap, ◌∙◌, List, Dict, lookup, some, arith, false, In, Bool, ok, inl,
  inr, Bool-cases, Option-cases,
}
use openedx_completion_aggre.Float.{Float}
use openedx_completion_aggre.Platform.{BlockKey, Platform, excluded, completable, aggregator}
use openedx_completion_aggre.Utils.{Container, bag_of_holding, contains}
use openedx_completion_aggre.Models.{BlockCompletion}
use openedx_completion_aggre.Core.{
  CompletionStats, CourseBlocksEntry, AggregationUpdater, Action, completion_mode,
  update_for_completable, no_stats, add_stats, record_total, recalculate, update_for_children,
  update_for_aggregator, update_for_block,
}
use openedx_completion_aggre.Core.Tree.{
  Course, Courses, excluded_block, completable_block, aggregator_block, nil, cons, root, roots,
  depth, depth_all, IsCourse, AreCourses, Lists, ListsAll, total, total_all,
}
use openedx_completion_aggre.Core.Recording.{Inv, Outcome, record_total-Outcome}

module _ (platform : Platform) (keys more : List BlockKey)
    (grows : (k : BlockKey) → In k keys → In k more) where
  mutual
    pub Lists-mono : (t : Course) → Lists platform keys t → Lists platform more t
    Lists-mono (excluded_block k) h = tt
    Lists-mono (completable_block k) h = tt
    Lists-mono (aggregator_block k cs) h = (λ r. grows k (h.0 r), ListsAll-mono cs h.1)

    pub ListsAll-mono : (cs : Courses) → ListsAll platform keys cs → ListsAll platform more cs
    ListsAll-mono nil h = tt
    ListsAll-mono (cons c cs) h = (Lists-mono c h.0, ListsAll-mono cs h.1)

not-bag :
    (k : BlockKey) (affected : Container)
    → affected ≡ bag_of_holding
    → contains k affected ≡ false
    → ⊥
unfolding contains
not-bag k affected b out = ground arith

-- One call of `update_for_block`, for each mode of the block.
module _ {F : Type 0} ⦃fl : Float F⦄ (platform : Platform) (affected : Container) (force : Bool)
    (k : BlockKey) (u : AggregationUpdater F) {limit n : ℕ} (e : limit ≡ suc n) where
  pub update_for_block-excluded :
      completion_mode platform k ≡ excluded
      → update_for_block platform limit affected force k u ≡ ok (no_stats, u)
  unfolding update_for_block
  update_for_block-excluded mode = rw (e, update_for_block, mode)

  pub update_for_block-completable :
      completion_mode platform k ≡ completable
      → update_for_block platform limit affected force k u
        ≡ ok (update_for_completable u.block_completions k, u)
  unfolding update_for_block
  update_for_block-completable mode = rw (e, update_for_block, mode)

  pub update_for_block-aggregator :
      completion_mode platform k ≡ aggregator
      → update_for_block platform limit affected force k u
        ≡ update_for_aggregator platform
            (update_for_block platform n affected force)
            k
            affected
            force
            u
  unfolding update_for_block
  update_for_block-aggregator mode = rw (e, update_for_block, mode)

pub recalculate_ok :
    {F : Type 0} ⦃fl : Float F⦄ (platform : Platform)
    (visit : BlockKey → Action F (CompletionStats F)) (k : BlockKey) (force : Bool)
    (u : AggregationUpdater F) {entry : CourseBlocksEntry} {stats : CompletionStats F}
    {u' : AggregationUpdater F}
    → lookup k u.course_blocks ≡ some entry
    → update_for_children visit entry.children no_stats u ≡ ok (stats, u')
    → recalculate platform visit k force u ≡ ok (stats, record_total platform k stats force u')
recalculate_ok platform visit k force u found loop = rw (found, recalculate, loop)

module _ {F : Type 0} ⦃fl : Float F⦄ (platform : Platform) (blocks : Dict CourseBlocksEntry)
    (completions : Dict (BlockCompletion F)) (affected : Container) (force : Bool) where
  abbrev Good : AggregationUpdater F → Type 0
  Good = Inv platform blocks completions affected

  abbrev Ends : (List BlockKey → Type 0) → AggregationUpdater F → AggregationUpdater F → Type 0
  Ends = Outcome platform blocks completions affected force

  Outcome-refl :
      {Listed : List BlockKey → Type 0} (u : AggregationUpdater F)
      → Good u
      → ((keys : List BlockKey) → Listed keys)
      → Ends Listed u u
  Outcome-refl u inv listed = record { inv = inv; grows = λ k m. m; covers = λ f b. listed _ }

  -- What the rest of the proof needs of the loop over the children.
  abbrev TotalledAll : Courses → CompletionStats F → ℕ → AggregationUpdater F → Type 0
  TotalledAll cs acc limit u =
      (u' : AggregationUpdater F) × (update_for_children
          (update_for_block platform limit affected force) (roots cs) acc u
        ≡ ok (total_all completions cs acc, u'))
      × Ends (λ keys. ListsAll platform keys cs) u u'

  abbrev Totalled : Course → ℕ → AggregationUpdater F → Type 0
  Totalled t limit u =
      (u' : AggregationUpdater F) × (update_for_block platform limit affected force (root t) u
        ≡ ok (total completions t, u'))
      × Ends (λ keys. Lists platform keys t) u u'

  module _ (k : BlockKey) (cs : Courses) (limit : ℕ) (u : AggregationUpdater F) (inv : Good u)
      (course : IsCourse platform blocks (aggregator_block k cs)) where
    abbrev sum : CompletionStats F
    sum = total completions (aggregator_block k cs)

    recalculate-total :
        (rest : TotalledAll cs no_stats limit u)
        → recalculate platform (update_for_block platform limit affected force) k force u
          ≡ ok (sum, record_total platform k sum force rest.0)
    unfolding total
    recalculate-total rest =
        recalculate_ok platform (update_for_block platform limit affected force) k force u
          (ap (lookup k) inv.same_blocks ∙ course.2)
          (ap
              (λ ks.
                update_for_children (update_for_block platform limit affected force) ks no_stats u)
              course.3
            ∙ rest.1)

    Outcome-aggregator :
        (rest : TotalledAll cs no_stats limit u)
        → Ends
            (λ keys. Lists platform keys (aggregator_block k cs))
            u
            (record_total platform k sum force rest.0)
    Outcome-aggregator rest =
        let last =
          record_total-Outcome platform blocks completions affected force k cs rest.0 rest.2.inv
            course in
        record {
          inv = last.inv;
          grows = λ j m. last.grows j (rest.2.grows j m);
          covers = λ f b.
              (last.covers f b, ListsAll-mono platform _ _ last.grows cs (rest.2.covers f b));
        }

    update_for_aggregator-total :
        TotalledAll cs no_stats limit u
        → (u' : AggregationUpdater F) × (update_for_aggregator platform
              (update_for_block platform limit affected force)
              k
              affected
              force
              u
            ≡ ok (sum, u'))
          × Ends (λ keys. Lists platform keys (aggregator_block k cs)) u u'
    unfolding update_for_aggregator
    update_for_aggregator-total rest = elim (Bool-cases (contains k affected)) [
      | inl hit ↦ (_, rw hit (recalculate-total rest), Outcome-aggregator rest)
      | inr out ↦ elim (Option-cases (lookup k u.aggregators)) [
        | inl miss ↦ (_, rw (out, miss) (recalculate-total rest), Outcome-aggregator rest)
        | inr (obj, found) ↦ (
          u,
          rw (out, found) (ap (λ s. ok (s, u)) (inv.fresh k cs obj course out found)),
          record { inv = inv; grows = λ j m. m; covers = λ f b. absurd (not-bag k affected b out) },
        )
      ]
    ]

  mutual
    unfolding total update_for_children

    pub update_for_block-total :
        (t : Course) (limit n : ℕ) (u : AggregationUpdater F)
        → Good u
        → IsCourse platform blocks t
        → limit ≡ suc n
        → depth t ≤ n
        → Totalled t limit u
    update_for_block-total (excluded_block k) limit n u inv course e h = (
      u,
      update_for_block-excluded platform affected force k u e course,
      Outcome-refl u inv (λ _. tt),
    )
    update_for_block-total (completable_block k) limit n u inv course e h = (
      u,
      update_for_block-completable platform affected force k u e course
          ∙ ap (λ d. ok (update_for_completable d k, u)) inv.same_completions,
      Outcome-refl u inv (λ _. tt),
    )
    update_for_block-total (aggregator_block k cs) limit n u inv course e h =
        let rest =
          update_for_children-total cs n (n - 1) no_stats u inv course.4 (omega arith)
            (omega arith) in
        let (u', done, out) = update_for_aggregator-total k cs n u inv course rest in
        (u', update_for_block-aggregator platform affected force k u e course.1 ∙ done, out)

    pub update_for_children-total :
        (cs : Courses) (limit n : ℕ) (acc : CompletionStats F) (u : AggregationUpdater F)
        → Good u
        → AreCourses platform blocks cs
        → limit ≡ suc n
        → depth_all cs ≤ n
        → TotalledAll cs acc limit u
    update_for_children-total nil limit n acc u inv course e h =
        (u, refl, Outcome-refl u inv (λ _. tt))
    update_for_children-total (cons c cs) limit n acc u inv course e h =
        let (u₁, first, out₁) = update_for_block-total c limit n u inv course.0 e (omega arith) in
        let (u₂, rest, out₂) =
          update_for_children-total cs limit n (add_stats acc (total completions c)) u₁ out₁.inv
            course.1 e (omega arith) in
        (
          u₂,
          rw first rest,
          record {
            inv = out₂.inv;
            grows = λ j m. out₂.grows j (out₁.grows j m);
            covers =
                λ f b. (Lists-mono platform _ _ out₂.grows c (out₁.covers f b), out₂.covers f b);
          },
        )
