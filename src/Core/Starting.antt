-- ===== src/Core/Starting.antt =====
-- The updater that `AggregationUpdater.__init__` (core.py) makes, and what a full update of it stores.
use openedx_completion_aggre.Prelude.{
  ◌<◌, ◌≡◌, refl, sym, ap, ◌∙◌, subst, inl, inr, true, ◌&&◌, Option, none, some, List, [], ◌∷◌,
  ◌==◌, ==_iff, Dict, lookup, insert, lookup-insert, All, In, if◌then◌else◌, Bool-cases, some_inj,
  and_left, and_right, >>=-eq-ok, ok_inj, ok,
}
use openedx_completion_aggre.Float.{Float}
use openedx_completion_aggre.Platform.{BlockKey, CourseKey, User, Platform}
use openedx_completion_aggre.Utils.{bag_of_holding, contains}
use openedx_completion_aggre.Models.{Aggregator, Database}
use openedx_completion_aggre.Models.Manager.{RowKey, key_of}
use openedx_completion_aggre.Core.{AggregationUpdater, get_affected_aggregators}
use openedx_completion_aggre.Core.Tree.{Course, root, depth, IsCourse, Lists}
use openedx_completion_aggre.Core.Updater.{
  CacheEntry, Lms, aggregators_by_block, course_structure, init, update_aggregators,
}
use openedx_completion_aggre.Core.Calculation.{IsFresh}
use openedx_completion_aggre.Core.Completion.{InRange}
use openedx_completion_aggre.Core.Owning.{row_key, IsOwned}
use openedx_completion_aggre.Core.Updating.{IsStored, update-IsStored}

module _ {F : Type 0} ⦃fl : Float F⦄ (platform : Platform) where
  -- The name of each aggregator is the type of its block, which is what the updater writes.
  abbrev pub IsNamed : Aggregator F → Type 0
  IsNamed row = row.aggregation_name ≡ platform.block_type row.block_key

  module _ (user : User) (course_key : CourseKey) where
    -- Each object of the dictionary has the learner's key for its block.
    abbrev HasOwnKeys : Dict (Aggregator F) → Type 0
    HasOwnKeys d =
        (k : BlockKey) (obj : Aggregator F)
        → lookup k d ≡ some obj
        → key_of obj ≡ row_key platform user course_key k

    insert-HasOwnKeys :
        (row : Aggregator F) (d : Dict (Aggregator F))
        → key_of row ≡ row_key platform user course_key row.block_key
        → HasOwnKeys d
        → HasOwnKeys (insert row.block_key row d)
    insert-HasOwnKeys row d h own k obj found =
        let found' = sym (lookup-insert row.block_key k row d) ∙ found in
        elim (Bool-cases (row.block_key == k)) [
          | inl same ↦
              let hit : row ≡ obj =
                some_inj (ap (λ b. if b then some row else lookup k d) (sym same) ∙ found') in
              ap (λ (a : Aggregator F). key_of a) (sym hit)
              ∙ h
              ∙ ap (row_key platform user course_key) ((==_iff row.block_key k).0 same)
          | inr other ↦
              own k obj (ap (λ b. if b then some row else lookup k d) (sym other) ∙ found')
        ]

    own_key :
        (row : Aggregator F)
        → IsNamed row
        → ((row.user.id == user.id) && (row.course_key == course_key)) ≡ true
        → key_of row ≡ row_key platform user course_key row.block_key
    own_key row named h =
        let same_user =
          (==_iff row.user.id user.id).0
            (and_left (row.user.id == user.id) (row.course_key == course_key) h) in
        let same_course =
          (==_iff row.course_key course_key).0
            (and_right (row.user.id == user.id) (row.course_key == course_key) h) in
        ap (λ i. record (key_of row) { user_id = i }) same_user
        ∙ ap (λ c. record (key_of row) { user_id = user.id; course_key = c }) same_course
        ∙ ap (λ n. record (row_key platform user course_key row.block_key) { aggregation_name = n })
            named

    aggregators_by_block-HasOwnKeys :
        (rows : List (Aggregator F)) (d : Dict (Aggregator F))
        → All IsNamed rows
        → HasOwnKeys d
        → HasOwnKeys (aggregators_by_block user course_key rows d)
    unfolding aggregators_by_block
    aggregators_by_block-HasOwnKeys [] d named own = own
    aggregators_by_block-HasOwnKeys (row ∷ rows) d (h, hs) own =
        elim (Bool-cases ((row.user.id == user.id) && (row.course_key == course_key))) [
          | inl mine ↦ rw mine (
              aggregators_by_block-HasOwnKeys rows (insert row.block_key row d) hs
                (insert-HasOwnKeys row d (own_key row h mine) own))
          | inr other ↦ rw other (aggregators_by_block-HasOwnKeys rows d hs own)
        ]

  module _ (lms : Lms F) (cached : Option CacheEntry) (user : User) (course_key : CourseKey)
      (raw_root : Option BlockKey) (db : Database F) (named : All IsNamed db.aggregators) where
    -- What `__init__` makes: nothing is updated yet, and the objects are the learner's.
    pub init-IsOwned :
        {u : AggregationUpdater F}
        → init platform lms cached user course_key raw_root db ≡ ok u
        → IsOwned platform user course_key u × (u.updated_aggregators ≡ [])
    unfolding init lookup
    init-IsOwned {u} e =
        let (found, e₁, e₂) =
          >>=-eq-ok (course_structure platform lms cached user course_key raw_root) _ e in
        subst
          (λ (v : AggregationUpdater F).
            IsOwned platform user course_key v × (v.updated_aggregators ≡ []))
          (ok_inj e₂)
          (
            record {
              user_is = refl;
              course_is = refl;
              owned =
                  aggregators_by_block-HasOwnKeys user course_key db.aggregators [] named
                    (λ k obj h. cc);
            },
            refl,
          )

    pub init-IsFresh :
        {u : AggregationUpdater F}
        → init platform lms cached user course_key raw_root db ≡ ok u
        → IsFresh platform (get_affected_aggregators u.course_blocks []) u
    unfolding get_affected_aggregators contains
    init-IsFresh {u} e =
        let (own, nothing) = init-IsOwned {u = u} e in
        record {
          empty = nothing;
          keyed = λ k obj found. ap (λ (r : RowKey). r.block_key) (own.owned k obj found);
          fresh = λ k cs obj course out found. cc;
        }

    pub get_affected_aggregators_all :
        (u : AggregationUpdater F) → get_affected_aggregators u.course_blocks [] ≡ bag_of_holding
    unfolding get_affected_aggregators
    get_affected_aggregators_all u = refl

    pub IsOwned-own :
        (u : AggregationUpdater F)
        → IsOwned platform user course_key u
        → IsOwned platform u.user u.course_key u
    IsOwned-own u own = record {
      user_is = refl;
      course_is = refl;
      owned = λ k obj found.
          own.owned k obj found
          ∙ ap (λ (v : User). row_key platform v course_key k) (sym own.user_is)
          ∙ ap (λ c. row_key platform u.user c k) (sym own.course_is);
    }

  -- The forced task for a whole course: where the names in the table are the types of the blocks, the
  -- structure that the updater starts with is a course less deep than the recursion limit, and every
  -- completion of the learner lies between 0.0 and 1.0, update_aggregators returns, and then the table
  -- has, under the learner's key of every registered aggregator of the course, the totals and the
  -- percentage of the tree below it.
  pub update_aggregators-IsStored :
      (lms : Lms F) (cached : Option CacheEntry) (user : User) (course_key : CourseKey)
      (db : Database F) (u : AggregationUpdater F) (t : Course)
      → All IsNamed db.aggregators
      → init platform lms cached user course_key none db ≡ ok u
      → IsCourse platform u.course_blocks t
      → root t ≡ u.root_block
      → depth t < platform.recursion_limit
      → InRange u.block_completions
      → (keys : List BlockKey) × (db' : Database F) × (update_aggregators platform lms cached user
            course_key [] true db
          ≡ (ok tt, db'))
        × ((k : BlockKey) → In k keys → IsStored platform u db'.aggregators k)
        × Lists platform keys t
  unfolding update_aggregators
  update_aggregators-IsStored lms cached user course_key db u t named e course top deep range =
      let (own, _) = init-IsOwned lms cached user course_key none db named {u = u} e in
      let (keys, db', run, stored, _, lists) =
        update-IsStored platform t u [] true db
          (init-IsFresh lms cached user course_key none db named {u = u} e)
          (IsOwned-own lms cached user course_key none db named u own) course top deep range in
      (
        keys,
        db',
        rw (e, update_aggregators) run,
        stored,
        lists refl (get_affected_aggregators_all lms cached user course_key none db named u),
      )
