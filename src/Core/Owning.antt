-- ===== src/Core/Owning.antt =====
-- Whose aggregators an updater (core.py) holds.
use openedx_completion_aggre.Prelude.{
  ℕ, ◌≡◌, sym, ap, ◌∙◌, subst, inl, inr, Bool, some, lookup, insert, lookup-insert, Option-cases,
  Bool-cases, ok, if◌then◌else◌, ◌==◌, ==_iff, some_inj,
}
use openedx_completion_aggre.Float.{Float}
use openedx_completion_aggre.Platform.{BlockKey, CourseKey, User, Platform}
use openedx_completion_aggre.Utils.{Container}
use openedx_completion_aggre.Models.{Aggregator}
use openedx_completion_aggre.Models.Manager.{RowKey, key_of}
use openedx_completion_aggre.Core.{
  CompletionStats, AggregationUpdater, aggregator_needs_update, updated_aggregator, record_total,
  update_for_block,
}
use openedx_completion_aggre.Core.Keeping.{Returns, Keeps-update_for_block}

-- The unique key of the learner's aggregator for a block.
abbrev pub row_key : Platform → User → CourseKey → BlockKey → RowKey
row_key platform user course_key k = record {
  user_id = user.id;
  course_key = course_key;
  block_key = k;
  aggregation_name = platform.block_type k;
}

module _ {F : Type 0} ⦃fl : Float F⦄ (platform : Platform) (user : User)
    (course_key : CourseKey) where
  -- The updater is the learner's, and each object that it holds has the learner's key for its block.
  pub record IsOwned (u : AggregationUpdater F) : Type 0 where
    pub user_is : u.user ≡ user
    pub course_is : u.course_key ≡ course_key
    pub owned :
        (k : BlockKey) (obj : Aggregator F)
        → lookup k u.aggregators ≡ some obj
        → key_of obj ≡ row_key platform user course_key k

  key_of-updated_aggregator :
      (k : BlockKey) (total : CompletionStats F) (u : AggregationUpdater F)
      → IsOwned u
      → key_of (updated_aggregator platform k total u) ≡ row_key platform user course_key k
  unfolding updated_aggregator
  key_of-updated_aggregator k total u own = elim (Option-cases (lookup k u.aggregators)) [
    | inl miss ↦
        rw (miss, updated_aggregator)
          (ap (λ (v : User). row_key platform v u.course_key k) own.user_is
            ∙ ap (λ c. row_key platform user c k) own.course_is)
    | inr (obj, found) ↦ rw (found, updated_aggregator) (own.owned k obj found)
  ]

  insert-owned :
      (k : BlockKey) (total : CompletionStats F) (u : AggregationUpdater F)
      → IsOwned u
      → (j : BlockKey) (obj : Aggregator F)
      → lookup j (insert k (updated_aggregator platform k total u) u.aggregators) ≡ some obj
      → key_of obj ≡ row_key platform user course_key j
  insert-owned k total u own j obj found =
      let new = updated_aggregator platform k total u in
      let found' = sym (lookup-insert k j new u.aggregators) ∙ found in
      elim (Bool-cases (k == j)) [
        | inl same ↦
            let hit : new ≡ obj =
              some_inj
                (ap (λ b. if b then some new else lookup j u.aggregators) (sym same) ∙ found') in
            ap (λ (a : Aggregator F). key_of a) (sym hit)
            ∙ key_of-updated_aggregator k total u own
            ∙ ap (row_key platform user course_key) ((==_iff k j).0 same)
        | inr other ↦
            own.owned j obj
              (ap (λ b. if b then some new else lookup j u.aggregators) (sym other) ∙ found')
      ]

  record_total-IsOwned :
      (force : Bool) (k : BlockKey) (total : CompletionStats F) (u : AggregationUpdater F)
      → IsOwned u
      → IsOwned (record_total platform k total force u)
  unfolding record_total
  record_total-IsOwned force k total u own =
      elim (Bool-cases (aggregator_needs_update platform k total.last_modified force u)) [
        | inl needs ↦
            rw (needs, record_total)
              (record {
                user_is = own.user_is;
                course_is = own.course_is;
                owned = insert-owned k total u own;
              })
        | inr fine ↦ rw (fine, record_total) own
      ]

  pub update_for_block-IsOwned :
      (limit : ℕ) (affected : Container) (force : Bool) (k : BlockKey) (u : AggregationUpdater F)
      {stats : CompletionStats F} {u' : AggregationUpdater F}
      → update_for_block platform limit affected force k u ≡ ok (stats, u')
      → IsOwned u
      → IsOwned u'
  update_for_block-IsOwned limit affected force k u e own = subst (Returns platform IsOwned) e (
      Keeps-update_for_block platform IsOwned force (record_total-IsOwned force) limit affected k u
        own)
