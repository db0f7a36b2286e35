-- ===== src/Core/Updating.antt =====
-- `AggregationUpdater.update` (core.py) as a whole: what a course's update leaves in the table.
use openedx_completion_aggre.Prelude.{
  ℕ, ◌+◌, ◌<◌, ◌≡◌, ◌≢◌, refl, sym, ap, ◌∙◌, subst, inl, inr, Bool, true, false, some, List, [],
  ◌∷◌, Dict, lookup, All, All-In, In, map, Option-cases, Bool-cases, Result, ok, >>=-eq-ok, ok_inj,
}
use openedx_completion_aggre.Float.{Float}
use openedx_completion_aggre.Platform.{BlockKey, Platform}
use openedx_completion_aggre.Utils.{bag_of_holding, get_percent}
use openedx_completion_aggre.Models.{Aggregator, BlockCompletion, Database, continue}
use openedx_completion_aggre.Models.Manager.{RowKey, key_eq, key_of, get_values}
use openedx_completion_aggre.Models.Table.{key_eq_iff}
use openedx_completion_aggre.Models.Abstract.{
  Values, values_of, view, write_all, write_all-other, write_all-same,
}
use openedx_completion_aggre.Models.Vendors.{IsValid, bulk_create_or_update-view}
use openedx_completion_aggre.Core.{
  CompletionStats, CourseBlocksEntry, AggregationUpdater, get_affected_aggregators, percent_of,
  update_for_block,
}
use openedx_completion_aggre.Core.Tree.{
  Course, Courses, aggregator_block, root, depth, IsCourse, Lists, total, IsCourse-unique,
}
use openedx_completion_aggre.Core.Updater.{objects, calculate, update, resolve_stale_completions}
use openedx_completion_aggre.Core.Calculation.{IsFresh, IsUpdated, calculate-IsUpdated}
use openedx_completion_aggre.Core.Completion.{InRange}
use openedx_completion_aggre.Core.Saving.{IsSavable, All-IsSavable}
use openedx_completion_aggre.Core.Owning.{row_key, IsOwned, update_for_block-IsOwned}

module _ {F : Type 0} ⦃fl : Float F⦄ (platform : Platform) where
  -- What the table should hold for a block with these totals.
  abbrev values_for : CompletionStats F → Values F
  values_for stats = record {
    earned = stats.earned;
    possible = stats.possible;
    percent = percent_of stats;
    last_modified = stats.last_modified;
  }

  -- Under the learner's key for the block, the table has the totals of the tree below the block.
  pub record IsStored (u : AggregationUpdater F) (rows : List (Aggregator F)) (k : BlockKey)
      : Type 0 where
    pub below : Courses
    pub course : IsCourse platform u.course_blocks (aggregator_block k below)
    pub stored :
        view rows (row_key platform u.user u.course_key k)
        ≡ some (values_for (total u.block_completions (aggregator_block k below)))

  -- The aggregator has the learner's key for its block.
  abbrev pub HasOwnKey : AggregationUpdater F → Aggregator F → Type 0
  HasOwnKey u row = key_of row ≡ row_key platform u.user u.course_key row.block_key

  objects-HasOwnKey :
      (u u' : AggregationUpdater F) (ks : List BlockKey)
      → IsOwned platform u.user u.course_key u'
      → All (HasOwnKey u) (objects u'.aggregators ks)
  unfolding objects
  objects-HasOwnKey u u' [] own = tt
  objects-HasOwnKey u u' (k ∷ ks) own = elim (Option-cases (lookup k u'.aggregators)) [
    | inl miss ↦ rw (miss, objects) (objects-HasOwnKey u u' ks own)
    | inr (obj, found) ↦
        let e = own.owned k obj found in
        rw (found, objects)
          (
            e
                ∙ ap (row_key platform u.user u.course_key)
                    (sym (ap (λ (r : RowKey). r.block_key) e)),
            objects-HasOwnKey u u' ks own,
          )
  ]

  pub calculate-HasOwnKey :
      (changed_blocks : List BlockKey) (force : Bool) (u : AggregationUpdater F)
      {updated : List (Aggregator F)} {u' : AggregationUpdater F}
      → calculate platform changed_blocks force u ≡ ok (updated, u')
      → IsOwned platform u.user u.course_key u
      → All (HasOwnKey u) updated
  unfolding calculate
  calculate-HasOwnKey changed_blocks force u e own =
      let affected = get_affected_aggregators u.course_blocks changed_blocks in
      let ((s, v), run, rest) =
        >>=-eq-ok (update_for_block platform platform.recursion_limit affected force u.root_block u)
          _ e in
      subst (λ (r : List (Aggregator F) × AggregationUpdater F). All (HasOwnKey u) r.0)
        (ok_inj rest)
        (objects-HasOwnKey u v v.updated_aggregators (
          update_for_block-IsOwned platform u.user u.course_key platform.recursion_limit affected
            force u.root_block u {stats = s} {u' = v} run own))

  In-map_block_key :
      (rows : List (Aggregator F)) (k : BlockKey)
      → In k (map (λ (a : Aggregator F). a.block_key) rows)
      → (row : Aggregator F) × In row rows × (row.block_key ≡ k)
  In-map_block_key [] k m = elim m [ ]
  In-map_block_key (r ∷ rows) k (inl e) = (r, inl refl, sym e)
  In-map_block_key (r ∷ rows) k (inr m) =
      let (row, n, e) = In-map_block_key rows k m in (row, inr n, e)

  values_of-IsUpdated :
      (blocks : Dict CourseBlocksEntry) (completions : Dict (BlockCompletion F)) (r : Aggregator F)
      (good : IsUpdated platform blocks completions r) (t : Course)
      → IsCourse platform blocks t
      → r.block_key ≡ root t
      → values_of r ≡ values_for (total completions t)
  values_of-IsUpdated blocks completions r good t course same =
      let agrees = good.agrees in
      let tree =
        IsCourse-unique platform blocks (aggregator_block r.block_key good.below) t good.course
          course same in
      ap (λ (p : F). record (values_of r) { percent = p })
        (agrees.percent ∙ ap percent_of (sym agrees.stats))
      ∙ ap values_for (agrees.stats ∙ ap (total completions) tree)

  -- Writing the calculated aggregators stores the totals of each.
  IsStored-write_all :
      (u : AggregationUpdater F) (updated before after : List (Aggregator F))
      → All (HasOwnKey u) updated
      → All (IsUpdated platform u.course_blocks u.block_completions) updated
      → ((k : RowKey) → view after k ≡ write_all updated (view before) k)
      → (k : BlockKey) → In k (map (λ (a : Aggregator F). a.block_key) updated)
      → IsStored u after k
  IsStored-write_all u updated before after own good written k m =
      let (row, n, e) = In-map_block_key updated k m in
      let Good = IsUpdated platform u.course_blocks u.block_completions in
      let fine = All-In Good updated row good n in
      let course' =
        subst (λ j. IsCourse platform u.course_blocks (aggregator_block j fine.below)) e
          fine.course in
      let key = row_key platform u.user u.course_key k in
      record {
        below = fine.below;
        course = course';
        stored =
            written key
            ∙ write_all-same updated (view before) key
                (values_for (total u.block_completions (aggregator_block k fine.below)))
                (λ r i same.
                  values_of-IsUpdated u.course_blocks u.block_completions r
                    (All-In Good updated r good i) (aggregator_block k fine.below) course'
                    (ap (λ (x : RowKey). x.block_key) same))
                (inr (
                  row,
                  n,
                  All-In (HasOwnKey u) updated row own n
                      ∙ ap (row_key platform u.user u.course_key) e,
                ));
      }

  IsValid-IsSavable : (rows : List (Aggregator F)) → All IsSavable rows → All IsValid rows
  unfolding get_values
  IsValid-IsSavable [] h = tt
  IsValid-IsSavable (row ∷ rows) (h, hs) =
      let (p, computed, e) =
        >>=-eq-ok (get_percent row.earned row.possible)
          (λ percent. ok (record row { percent = percent })) h.values in
      let same : p ≡ row.percent = ap (λ (r : Aggregator F). r.percent) (ok_inj e) in
      (
        record { valid = h.validated; percent = computed ∙ ap {B = Result F} ok same },
        IsValid-IsSavable rows hs,
      )

  others_miss :
      (u : AggregationUpdater F) (updated : List (Aggregator F))
      → All (HasOwnKey u) updated
      → (key : RowKey)
      → ((k : BlockKey)
          → In k (map (λ (a : Aggregator F). a.block_key) updated)
          → key ≢ row_key platform u.user u.course_key k)
      → All (λ (row : Aggregator F). key_eq (key_of row) key ≡ false) updated
  others_miss u [] own key others = tt
  others_miss u (row ∷ rows) (h, hs) key others = (
    elim (Bool-cases (key_eq (key_of row) key)) [
      | inl hit ↦
          absurd (others row.block_key (inl refl) (sym ((key_eq_iff (key_of row) key).0 hit) ∙ h))
      | inr miss ↦ miss
    ],
    others_miss u rows hs key (λ k m. others k (inr m)),
  )

  IsFresh-ticks :
      (changed_blocks : List BlockKey) (u : AggregationUpdater F) (n : ℕ)
      → IsFresh platform (get_affected_aggregators u.course_blocks changed_blocks) u
      → IsFresh platform
          (get_affected_aggregators u.course_blocks changed_blocks)
          (record u { ticks = n })
  IsFresh-ticks changed_blocks u n f = record { empty = f.empty; keyed = f.keyed; fresh = f.fresh }

  -- On a course less deep than the recursion limit, where every completion of the learner lies
  -- between 0.0 and 1.0, the objects of the updater are the learner's, and those that are not
  -- affected are up to date: the update returns; under the learner's key of each block that it has
  -- updated the table then has the totals and the percentage of the tree below that block, and under
  -- every other key what it had. Where everything is recalculated by force, these are all the
  -- registered aggregators of the course.
  pub update-IsStored :
      (t : Course) (u : AggregationUpdater F) (changed_blocks : List BlockKey) (force : Bool)
      (db : Database F)
      → IsFresh platform (get_affected_aggregators u.course_blocks changed_blocks) u
      → IsOwned platform u.user u.course_key u
      → IsCourse platform u.course_blocks t
      → root t ≡ u.root_block
      → depth t < platform.recursion_limit
      → InRange u.block_completions
      → (keys : List BlockKey) × (db' : Database F) × (update platform changed_blocks force u db
          ≡ (ok tt, db'))
        × ((k : BlockKey) → In k keys → IsStored u db'.aggregators k)
        × ((key : RowKey)
            → ((k : BlockKey) → In k keys → key ≢ row_key platform u.user u.course_key k)
            → view db'.aggregators key ≡ view db.aggregators key)
        × (force ≡ true
            → get_affected_aggregators u.course_blocks changed_blocks ≡ bag_of_holding
            → Lists platform keys t)
  unfolding update resolve_stale_completions
  update-IsStored t u changed_blocks force db fresh owned course e h range =
      let start = platform.clock db.ticks in
      let u₀ = record u { ticks = db.ticks + 1 } in
      let owned₀ : IsOwned platform u.user u.course_key u₀ = record {
        user_is = refl;
        course_is = refl;
        owned = owned.owned;
      } in
      let (updated, u', done, good, lists) =
        calculate-IsUpdated platform t u₀ changed_blocks force
          (IsFresh-ticks changed_blocks u (db.ticks + 1) fresh) course e h in
      let own =
        calculate-HasOwnKey changed_blocks force u₀ {updated = updated} {u' = u'} done owned₀ in
      let (db₁, run, written) =
        bulk_create_or_update-view platform updated (record db { ticks = u'.ticks })
          (IsValid-IsSavable updated
            (All-IsSavable platform u.course_blocks u.block_completions range updated good)) in
      let resolve = resolve_stale_completions u.user u.course_key changed_blocks start in
      (
        map (λ (a : Aggregator F). a.block_key) updated,
        (resolve db₁).1,
        rw (done, update)
            (ap (λ (r : Result (Unit {0}) × Database F). continue r.0 (λ _. resolve) r.1) run),
        IsStored-write_all u updated db.aggregators db₁.aggregators own good written,
        λ key others.
            written key
            ∙ write_all-other updated (view db.aggregators) key
                (others_miss u updated own key others),
        lists,
      )
