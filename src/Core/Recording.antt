-- ===== src/Core/Recording.antt =====
-- What an update keeps of the updater, and that recording an aggregator's total keeps it.
use openedx_completion_aggre.Prelude.{
  ◌+◌, subst, ◌≡◌, sym, ap, ◌∙◌, List, [], ◌∷◌, ◌++◌, Dict, lookup, insert, lookup-insert,
  In-append_left, In-append_right, In-append_cases, some, arith, true, false, In, Bool, none, ◌⊎◌,
  inl, inr, Bool-cases, Option-cases,
}
use openedx_completion_aggre.Float.{Float}
use openedx_completion_aggre.Platform.{BlockKey, Platform}
use openedx_completion_aggre.Utils.{Container, bag_of_holding, contains}
use openedx_completion_aggre.Models.{Aggregator, BlockCompletion}
use openedx_completion_aggre.Core.{
  CompletionStats, CourseBlocksEntry, AggregationUpdater, stats_of, percent_of,
  block_is_registered_aggregator, aggregator_needs_update, updated_aggregator, record_total,
}
use openedx_completion_aggre.Core.Tree.{Courses, aggregator_block, IsCourse, total, IsCourse-unique}

-- The stored object agrees with the tree below its block.
pub record Agrees {F : Type 0} ⦃fl : Float F⦄ (platform : Platform)
    (completions : Dict (BlockCompletion F)) (k : BlockKey) (cs : Courses) (obj : Aggregator F)
    : Type 0 where
  pub stats : stats_of obj ≡ total completions (aggregator_block k cs)
  pub percent : obj.percent ≡ percent_of (total completions (aggregator_block k cs))
  pub registered : block_is_registered_aggregator platform k ≡ true

module _ {F : Type 0} ⦃fl : Float F⦄ (platform : Platform) (blocks : Dict CourseBlocksEntry)
    (completions : Dict (BlockCompletion F)) (affected : Container) where
  -- What holds of the updater all through an update.
  pub record Inv (u : AggregationUpdater F) : Type 0 where
    pub same_blocks : u.course_blocks ≡ blocks
    pub same_completions : u.block_completions ≡ completions
    pub fresh :
        (k : BlockKey) (cs : Courses) (obj : Aggregator F)
        → IsCourse platform blocks (aggregator_block k cs)
        → contains k affected ≡ false
        → lookup k u.aggregators ≡ some obj
        → stats_of obj ≡ total completions (aggregator_block k cs)
    pub keyed :
        (k : BlockKey) (obj : Aggregator F) → lookup k u.aggregators ≡ some obj → obj.block_key ≡ k
    pub written :
        (k : BlockKey)
        → In k u.updated_aggregators
        → (cs : Courses) × (obj : Aggregator F) × (lookup k u.aggregators ≡ some obj)
          × IsCourse platform blocks (aggregator_block k cs)
          × Agrees platform completions k cs obj

  pub record Outcome (force : Bool) (Listed : List BlockKey → Type 0) (u u' : AggregationUpdater F)
      : Type 0 where
    pub inv : Inv u'
    pub grows : (k : BlockKey) → In k u.updated_aggregators → In k u'.updated_aggregators
    pub covers : force ≡ true → affected ≡ bag_of_holding → Listed u'.updated_aggregators

module _ {F : Type 0} ⦃fl : Float F⦄ (platform : Platform) where
  stats_of-updated_aggregator :
      (k : BlockKey) (stats : CompletionStats F) (u : AggregationUpdater F)
      → stats_of (updated_aggregator platform k stats u) ≡ stats
  unfolding updated_aggregator
  stats_of-updated_aggregator k stats u = ground arith

  percent-updated_aggregator :
      (k : BlockKey) (stats : CompletionStats F) (u : AggregationUpdater F)
      → (updated_aggregator platform k stats u).percent ≡ percent_of stats
  unfolding updated_aggregator
  percent-updated_aggregator k stats u = ground arith

  block_key-updated_aggregator :
      (k : BlockKey) (stats : CompletionStats F) (u : AggregationUpdater F)
      → ((obj : Aggregator F) → lookup k u.aggregators ≡ some obj → obj.block_key ≡ k)
      → (updated_aggregator platform k stats u).block_key ≡ k
  unfolding updated_aggregator
  block_key-updated_aggregator k stats u keyed = elim (Option-cases (lookup k u.aggregators)) [
    | inl miss ↦ rw (miss, updated_aggregator)
    | inr (obj, hit) ↦ rw (hit, updated_aggregator) (keyed obj hit)
  ]

  registered_of_needs :
      (k : BlockKey) (stats : CompletionStats F) (force : Bool) (u : AggregationUpdater F)
      → aggregator_needs_update platform k stats.last_modified force u ≡ true
      → block_is_registered_aggregator platform k ≡ true
  unfolding aggregator_needs_update
  registered_of_needs k stats force u h = ground arith

  needs_of_force :
      (k : BlockKey) (stats : CompletionStats F) (u : AggregationUpdater F)
      → block_is_registered_aggregator platform k ≡ true
      → aggregator_needs_update platform k stats.last_modified true u ≡ true
  unfolding aggregator_needs_update
  needs_of_force k stats u h = ground arith

module _ {F : Type 0} ⦃fl : Float F⦄ (platform : Platform) (blocks : Dict CourseBlocksEntry)
    (completions : Dict (BlockCompletion F)) (affected : Container) (force : Bool) where
  module _ (k : BlockKey) (cs : Courses) (u : AggregationUpdater F)
      (inv : Inv platform blocks completions affected u)
      (course : IsCourse platform blocks (aggregator_block k cs)) where
    sum : CompletionStats F
    sum = total completions (aggregator_block k cs)

    new : Aggregator F
    unfolding sum
    new = updated_aggregator platform k sum u

    lookup-new_cases :
        (j : BlockKey)
        → (k ≡ j) × (lookup j (insert k new u.aggregators) ≡ some new)
          ⊎ (lookup j (insert k new u.aggregators) ≡ lookup j u.aggregators)
    lookup-new_cases j = rw lookup-insert (ground arith)

    fresh-record_total :
        (j : BlockKey) (ds : Courses) (obj : Aggregator F)
        → IsCourse platform blocks (aggregator_block j ds)
        → contains j affected ≡ false
        → lookup j (insert k new u.aggregators) ≡ some obj
        → stats_of obj ≡ total completions (aggregator_block j ds)
    unfolding new sum
    fresh-record_total j ds obj c out found = elim (lookup-new_cases j) [
      | inl (e, hit) ↦
          let same =
            IsCourse-unique platform blocks (aggregator_block k cs) (aggregator_block j ds) course c
              e in
          let same_obj : new ≡ obj = cc in
          sym (ap stats_of same_obj)
          ∙ stats_of-updated_aggregator platform k (total completions (aggregator_block k cs)) u
          ∙ ap (total completions) same
      | inr old ↦ inv.fresh j ds obj c out (sym old ∙ found)
    ]

    stored : AggregationUpdater F
    unfolding new
    stored = record u {
      aggregators = insert k new u.aggregators;
      updated_aggregators = u.updated_aggregators ++ k ∷ [];
      ticks = u.ticks + (elim (lookup k u.aggregators) [ none ↦ 2 | some _ ↦ 1 ]);
    }

    new-Agrees :
        block_is_registered_aggregator platform k ≡ true → Agrees platform completions k cs new
    unfolding new sum
    new-Agrees registered = record {
      stats = stats_of-updated_aggregator platform k _ u;
      percent = percent-updated_aggregator platform k _ u;
      registered = registered;
    }

    -- Where the key `j` is listed, the store has an object that agrees with the tree.
    abbrev Written : BlockKey → Type 0
    Written j =
        (ds : Courses) × (obj : Aggregator F) × (lookup j (insert k new u.aggregators) ≡ some obj)
        × IsCourse platform blocks (aggregator_block j ds)
        × Agrees platform completions j ds obj

    lookup-new : lookup k (insert k new u.aggregators) ≡ some new
    lookup-new = rw lookup-insert (ground arith)

    Written-new :
        block_is_registered_aggregator platform k ≡ true → (j : BlockKey) → k ≡ j → Written j
    Written-new registered j e =
        subst Written e (cs, new, lookup-new, course, new-Agrees registered)

    Written-stored :
        block_is_registered_aggregator platform k ≡ true
        → (j : BlockKey) → In j (u.updated_aggregators ++ k ∷ [])
        → Written j
    Written-stored registered j m = elim (lookup-new_cases j) [
      | inl (e, hit) ↦ Written-new registered j e
      | inr old ↦ elim (In-append_cases j u.updated_aggregators m) [
        | inl before ↦
            let (ds, obj, found, c, agrees) = inv.written j before in
            (ds, obj, old ∙ found, c, agrees)
        | inr e ↦ Written-new registered j (sym e)
      ]
    ]

    block_key-new : new.block_key ≡ k
    unfolding new
    block_key-new = block_key-updated_aggregator platform k _ u (inv.keyed k)

    keyed-stored :
        (j : BlockKey) (obj : Aggregator F)
        → lookup j (insert k new u.aggregators) ≡ some obj
        → obj.block_key ≡ j
    keyed-stored j obj found = elim (lookup-new_cases j) [
      | inl (e, hit) ↦
          let same_obj : new ≡ obj = cc in
          sym (ap (λ (a : Aggregator F). a.block_key) same_obj) ∙ block_key-new ∙ e
      | inr old ↦ inv.keyed j obj (sym old ∙ found)
    ]

    Inv-stored :
        block_is_registered_aggregator platform k ≡ true
        → Inv platform blocks completions affected stored
    unfolding stored
    Inv-stored registered = record {
      same_blocks = inv.same_blocks;
      same_completions = inv.same_completions;
      fresh = fresh-record_total;
      keyed = keyed-stored;
      written = Written-stored registered;
    }

    record_total_cases :
        (aggregator_needs_update platform k sum.last_modified force u ≡ true)
          × (record_total platform k sum force u ≡ stored)
        ⊎ (aggregator_needs_update platform k sum.last_modified force u ≡ false)
          × (record_total platform k sum force u ≡ u)
    unfolding record_total stored
    record_total_cases =
        elim (Bool-cases (aggregator_needs_update platform k sum.last_modified force u)) [
          | inl h ↦ inl (h, rw h)
          | inr h ↦ inr (h, rw h)
        ]

    -- Recording the total of an aggregator keeps the invariant.
    pub record_total-Outcome :
        Outcome platform blocks completions affected force
          (λ keys. block_is_registered_aggregator platform k ≡ true → In k keys)
          u
          (record_total platform k (total completions (aggregator_block k cs)) force u)
    unfolding sum stored
    record_total-Outcome = elim record_total_cases [
      | inl (h, e) ↦ rw e (record {
        inv = Inv-stored (registered_of_needs platform k sum force u h);
        grows = λ j. In-append_left j u.updated_aggregators (k ∷ []);
        covers = λ f b r. In-append_right k u.updated_aggregators;
      })
      | inr (h, e) ↦ rw e (record {
        inv = inv;
        grows = λ j m. m;
        covers = λ f b r. let needed = needs_of_force platform k sum u r in cc;
      })
    ]
