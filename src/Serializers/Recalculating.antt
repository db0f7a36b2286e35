-- ===== src/Serializers/Recalculating.antt =====
-- What an adapter (serializers.py) presents where stale completions wait.
use openedx_completion_aggre.Prelude.{
  String, ◌<◌, ◌≡◌, refl, ap, ◌∙◌, true, ◌==◌, ==_iff, and_intro, Option, some, List, [], ◌∷◌, All,
  map, select, Result, ok, ◌>>=◌,
}
use openedx_completion_aggre.Float.{Float}
use openedx_completion_aggre.Platform.{BlockKey, CourseKey, User, Platform}
use openedx_completion_aggre.Models.{Aggregator, Database}
use openedx_completion_aggre.Models.Manager.{RowKey}
use openedx_completion_aggre.Core.{AggregationUpdater}
use openedx_completion_aggre.Core.Tree.{Course, root, depth, IsCourse, Lists}
use openedx_completion_aggre.Core.Updater.{
  CacheEntry, Lms, init, calculate, calculate_updated_aggregators,
}
use openedx_completion_aggre.Core.Calculation.{IsUpdated, calculate-IsUpdated}
use openedx_completion_aggre.Core.Updating.{HasOwnKey, calculate-HasOwnKey}
use openedx_completion_aggre.Core.Starting.{
  IsNamed, init-IsOwned, init-IsFresh, IsOwned-own, get_affected_aggregators_all,
}
use openedx_completion_aggre.Serializers.{
  AggregatorAdapter, get_named, is_stale, belongs, add_all, adapter_update_aggregators,
  adapter_init,
}
use openedx_completion_aggre.Serializers.Adding.{under, add_all-select}

module _ {F : Type 0} ⦃fl : Float F⦄ (platform : Platform) where
  All-belongs :
      (u : AggregationUpdater F) (user : User) (course_key : CourseKey)
      → u.user ≡ user
      → u.course_key ≡ course_key
      → (rows : List (Aggregator F)) → All (HasOwnKey platform u) rows
      → All (λ row. belongs user course_key row ≡ true) rows
  All-belongs u user course_key same_user same_course [] own = tt
  All-belongs u user course_key same_user same_course (row ∷ rows) (h, hs) = (
    and_intro (row.user.id == user.id) (row.course_key == course_key)
        ((==_iff row.user.id user.id).1
          (ap (λ (k : RowKey). k.user_id) h ∙ ap (λ (v : User). v.id) same_user))
        ((==_iff row.course_key course_key).1 (ap (λ (k : RowKey). k.course_key) h ∙ same_course)),
    All-belongs u user course_key same_user same_course rows hs,
  )

  module _ (lms : Lms F) (cached : Option CacheEntry) (db : Database F) (user : User)
      (course_key : CourseKey) where
    calculate_updated_aggregators_ok :
        (root_block : Option BlockKey) {u u' : AggregationUpdater F} {updated : List (Aggregator F)}
        → init platform lms cached user course_key root_block db ≡ ok u
        → calculate platform [] true u ≡ ok (updated, u')
        → calculate_updated_aggregators platform lms cached user course_key [] root_block true db
          ≡ ok (
            updated,
            some (record { course_blocks = u.course_blocks; root_block = u.root_block }),
          )
    unfolding calculate_updated_aggregators
    calculate_updated_aggregators_ok root_block e done =
        rw (e, calculate_updated_aggregators) (rw done)

    abbrev new_adapter : AggregatorAdapter F
    new_adapter = record { user = user; course_key = course_key; aggregators = [] }

    adapter_init_stale :
        (rows : List (Aggregator F)) (root_block : Option BlockKey) {updated : List (Aggregator F)}
        {entry : Option CacheEntry} {adapter : AggregatorAdapter F}
        → is_stale user course_key db.stale_completions ≡ true
        → calculate_updated_aggregators platform lms cached user course_key [] root_block true db
          ≡ ok (updated, entry)
        → add_all platform updated new_adapter ≡ ok adapter
        → adapter_init platform lms cached db user course_key rows root_block true ≡ ok adapter
    unfolding adapter_init adapter_update_aggregators
    adapter_init_stale rows root_block stale found added =
        ap (λ b. adapter_update_aggregators platform lms cached db rows root_block b new_adapter)
          stale
        ∙ ap
            (λ (m : Result (List (Aggregator F) × Option CacheEntry)).
              m >>= λ r. add_all platform r.0 new_adapter)
            found
        ∙ added

  -- Where a stale completion of the enrollment waits, the names in the table are the types of the
  -- blocks, and the structure that the updater starts with is a course less deep than the recursion
  -- limit: the adapter is made whatever aggregators it is given, and presents under each name exactly
  -- the recalculated ones of that name, which are all the registered aggregators of the course, each
  -- with the totals and the percentage of the tree below its block.
  pub adapter_init-IsUpdated :
      (lms : Lms F) (cached : Option CacheEntry) (db : Database F) (user : User)
      (course_key : CourseKey) (rows : List (Aggregator F)) (root_block : Option BlockKey)
      (u : AggregationUpdater F) (t : Course)
      → is_stale user course_key db.stale_completions ≡ true
      → All (IsNamed platform) db.aggregators
      → init platform lms cached user course_key root_block db ≡ ok u
      → IsCourse platform u.course_blocks t
      → root t ≡ u.root_block
      → depth t < platform.recursion_limit
      → (adapter : AggregatorAdapter F) × (updated : List (Aggregator F)) × (adapter_init platform
            lms cached db user course_key rows root_block true
          ≡ ok adapter)
        × ((name : String)
            → get_named name adapter.aggregators ≡ select (under platform name) updated)
        × All (IsUpdated platform u.course_blocks u.block_completions) updated
        × Lists platform (map (λ (a : Aggregator F). a.block_key) updated) t
  unfolding get_named
  adapter_init-IsUpdated lms cached db user course_key rows root_block u t stale named e course top
        deep =
      let (own, _) =
        init-IsOwned platform lms cached user course_key root_block db named {u = u} e in
      let (updated, u', done, good, lists) =
        calculate-IsUpdated platform t u [] true
          (init-IsFresh platform lms cached user course_key root_block db named {u = u} e) course
          top deep in
      let keys =
        calculate-HasOwnKey platform [] true u {updated = updated} {u' = u'} done
          (IsOwned-own platform lms cached user course_key root_block db named u own) in
      let (adapter, added, presented) =
        add_all-select platform updated
          (record { user = user; course_key = course_key; aggregators = [] })
          (All-belongs u user course_key own.user_is own.course_is updated keys) in
      (
        adapter,
        updated,
        adapter_init_stale lms cached db user course_key rows root_block stale
            (calculate_updated_aggregators_ok lms cached db user course_key root_block {u = u}
              {u' = u'} {updated = updated} e done)
            added,
        presented,
        good,
        lists refl (
            get_affected_aggregators_all platform lms cached user course_key root_block db named u),
      )
