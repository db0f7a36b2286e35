-- ===== src/Core/Updater.antt =====
-- The rest of `AggregationUpdater`, and the two functions of completion_aggregator/core.py that the
-- tasks and the serializers call. What edx-platform answers is a record of functions.
use openedx_completion_aggre.Prelude.{
  ◌+◌, Bool, true, false, ◌&&◌, Option, none, some, List, [], ◌∷◌, ◌==◌, ltb, elem, str_eq,
  if◌then◌else◌, Dict, lookup, insert, item_not_found, type_error, Result, ok, raise, ◌>>=◌,
}
use openedx_completion_aggre.Float.{Float}
use openedx_completion_aggre.Platform.{Time, CourseKey, BlockKey, User, Platform}
use openedx_completion_aggre.Models
use openedx_completion_aggre.Models.{Aggregator, BlockCompletion, StaleCompletion, Database, Query}
use openedx_completion_aggre.Models.Manager.{bulk_create_or_update}
use openedx_completion_aggre.Core.{
  CourseBlocksEntry, AggregationUpdater, get_affected_aggregators, update_for_block,
}
use openedx_completion_aggre.Core.Structure.{BlockStructure, format_course_blocks}

-- `CacheEntry`
pub record CacheEntry : Type 0 where
  pub course_blocks : Dict CourseBlocksEntry
  pub root_block : BlockKey

-- The modulestore and the course blocks API of edx-platform, and the table of `BlockCompletion`.
pub record Lms (F : Type 0) : Type 0 where
  pub init_course_block_key : CourseKey → Result BlockKey
  pub init_course_blocks : User → BlockKey → Result BlockStructure
  pub get_block_completions : User → CourseKey → List (BlockCompletion F)

-- The filters of `resolve_stale_completions`.
unfoldable pub is_resolved_by : User → CourseKey → List BlockKey → Time → StaleCompletion → Bool
is_resolved_by user course_key changed_blocks start stale =
    str_eq stale.username user.username
    && ((stale.course_key == course_key)
        && (ltb stale.modified start && (elim changed_blocks [
          | [] ↦ true
          | block ∷ rest ↦ elim stale.block_key [
            | none ↦ false
            | some key ↦ elem key (block ∷ rest)
          ]
        ])))

-- `queryset.update(resolved=True)`
unfoldable pub mark_resolved :
    (StaleCompletion → Bool) → List StaleCompletion → List StaleCompletion
mark_resolved p [] = []
mark_resolved p (stale ∷ rest) =
    (if p stale then record stale { resolved = true } else stale) ∷ mark_resolved p rest

module _ {F : Type 0} where
  -- The comprehension over `Aggregator.objects.filter(user=…, course_key=…)`.
  unfoldable pub aggregators_by_block :
      User → CourseKey → List (Aggregator F) → Dict (Aggregator F) → Dict (Aggregator F)
  aggregators_by_block user course_key [] d = d
  aggregators_by_block user course_key (row ∷ rows) d = aggregators_by_block user course_key rows (
      if (row.user.id == user.id) && (row.course_key == course_key)
      then insert row.block_key row d
      else d)

  unfoldable pub completions_by_block :
      Platform
      → CourseKey
      → List (BlockCompletion F)
      → Dict (BlockCompletion F)
      → Dict (BlockCompletion F)
  completions_by_block platform course_key [] d = d
  completions_by_block platform course_key (c ∷ rest) d =
      completions_by_block platform course_key rest
        (insert (platform.map_into_course c.block_key course_key) c d)

  -- The part of `__init__` that fetches the course structure; a cached structure is used as it is.
  unfoldable pub course_structure :
      Platform
      → Lms F
      → Option CacheEntry
      → User
      → CourseKey
      → Option BlockKey
      → Result (BlockKey × Dict CourseBlocksEntry)
  course_structure platform lms (some entry) user course_key raw_root_block =
      ok (entry.root_block, entry.course_blocks)
  course_structure platform lms none user course_key raw_root_block = do
    root ← (elim raw_root_block [
      | some block ↦ ok block
      | none ↦ lms.init_course_block_key course_key
    ])
    course_blocks ← lms.init_course_blocks user root
    structure ← format_course_blocks course_blocks platform.recursion_limit root
    ok (root, structure)

  -- `AggregationUpdater.__init__`
  unfoldable pub init :
      Platform
      → Lms F
      → Option CacheEntry
      → User
      → CourseKey
      → Option BlockKey
      → Database F
      → Result (AggregationUpdater F)
  unfolding course_structure aggregators_by_block completions_by_block
  init platform lms cached user course_key raw_root_block db = do
    (root, structure) ← course_structure platform lms cached user course_key raw_root_block
    ok (record {
      user = user;
      course_key = course_key;
      root_block = root;
      course_blocks = structure;
      aggregators = aggregators_by_block user course_key db.aggregators [];
      block_completions =
          completions_by_block platform course_key (lms.get_block_completions user course_key) [];
      updated_aggregators = [];
      ticks = db.ticks;
    })

  -- The objects that `updated_aggregators` holds.
  unfoldable pub objects : Dict (Aggregator F) → List BlockKey → List (Aggregator F)
  objects d [] = []
  objects d (k ∷ ks) = elim (lookup k d) [ none ↦ objects d ks | some obj ↦ obj ∷ objects d ks ]

  unfoldable pub resolve_stale_completions :
      User → CourseKey → List BlockKey → Time → Query F (Unit {0})
  unfolding mark_resolved is_resolved_by
  resolve_stale_completions user course_key changed_blocks start db = (
    ok tt,
    record db {
      stale_completions =
          mark_resolved (is_resolved_by user course_key changed_blocks start) db.stale_completions;
    },
  )

module _ {F : Type 0} ⦃fl : Float F⦄ where
  -- `AggregationUpdater.calculate_updated_aggregators`
  unfoldable pub calculate :
      Platform
      → List BlockKey
      → Bool
      → AggregationUpdater F
      → Result (List (Aggregator F) × AggregationUpdater F)
  unfolding objects
  calculate platform changed_blocks force u = do
    (_, u') ←
        update_for_block platform platform.recursion_limit
          (get_affected_aggregators u.course_blocks changed_blocks) force u.root_block u
    ok (objects u'.aggregators u'.updated_aggregators, u')

  -- `AggregationUpdater.update`
  unfoldable pub update :
      Platform → List BlockKey → Bool → AggregationUpdater F → Query F (Unit {0})
  unfolding calculate resolve_stale_completions
  update platform changed_blocks force u db =
      let start = platform.clock db.ticks in
      elim (calculate platform changed_blocks force (record u { ticks = db.ticks + 1 })) [
        | raise e ↦ (raise e, record db { ticks = db.ticks + 1 })
        | ok (updated, u') ↦
            Models.◌>>=◌ (bulk_create_or_update platform updated)
              (λ _. resolve_stale_completions u.user u.course_key changed_blocks start)
              (record db { ticks = u'.ticks })
      ]

  -- `calculate_updated_aggregators`: with no course, or no readable one, nothing is updated. The
  -- entry is what the updater puts into the cache.
  unfoldable pub calculate_updated_aggregators :
      Platform
      → Lms F
      → Option CacheEntry
      → User
      → CourseKey
      → List BlockKey
      → Option BlockKey
      → Bool
      → Database F
      → Result (List (Aggregator F) × Option CacheEntry)
  unfolding init calculate
  calculate_updated_aggregators platform lms cached user course_key changed_blocks root_block force
        db =
      elim (init platform lms cached user course_key root_block db) [
        | raise item_not_found ↦ ok ([], none)
        | raise type_error ↦ ok ([], none)
        | raise other ↦ raise other
        | ok u ↦ do
          (updated, u') ← calculate platform changed_blocks force u
          ok (updated, some (record { course_blocks = u.course_blocks; root_block = u.root_block }))
      ]

  -- The handler of both exceptions in `update_aggregators`.
  unfoldable pub resolve_all : User → CourseKey → Query F (Unit {0})
  unfolding mark_resolved
  resolve_all user course_key db = (
    ok tt,
    record db {
      stale_completions =
          mark_resolved
            (λ stale. str_eq stale.username user.username && (stale.course_key == course_key))
            db.stale_completions;
    },
  )

  -- `update_aggregators`
  unfoldable pub update_aggregators :
      Platform
      → Lms F
      → Option CacheEntry
      → User
      → CourseKey
      → List BlockKey
      → Bool
      → Query F (Unit {0})
  unfolding init update resolve_all
  update_aggregators platform lms cached user course_key block_keys force db =
      elim (init platform lms cached user course_key none db) [
        | raise item_not_found ↦ resolve_all user course_key db
        | raise type_error ↦ resolve_all user course_key db
        | raise other ↦ (raise other, db)
        | ok u ↦ update platform block_keys force u db
      ]
