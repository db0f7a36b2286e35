-- ===== src/Signals.antt =====
-- completion_aggregator/signals.py and completion_aggregator/tasks: the handlers of the signals, and
-- the tasks that they and the aggregator service queue.
--
-- A call of `delay` is queued as a `StaleTask` or an `UpdateTask`. Course and usage keys stay keys:
-- that a key survives being printed and parsed is the business of `opaque_keys`.
pub mod Completions
pub mod Running
use openedx_completion_aggre.Prelude.{
  ℕ, ◌+◌, ◌*◌, String, Bool, true, false, ◌&&◌, not, Option, none, some, List, [], ◌∷◌, ◌++◌, ◌==◌,
  ◌≡◌, map, add, select, str_eq, if◌then◌else◌, Exception, does_not_exist, Result, ok, raise,
}
use openedx_completion_aggre.Float.{Float}
use openedx_completion_aggre.Platform.{Time, CourseKey, BlockKey, User, Settings, Platform}
use openedx_completion_aggre.Models.{Aggregator, StaleCompletion, Database, Query}
use openedx_completion_aggre.CacheGroup.{delete_group}
use openedx_completion_aggre.Core.Updater.{CacheEntry, Lms, mark_resolved, update_aggregators}
use openedx_completion_aggre.Batch.{
  Enrollment, UpdateTask, Service, perform_aggregation, perform_cleanup,
}

-- The arguments of one `mark_all_stale.delay`; no users stands for all active ones.
pub record StaleTask : Type 0 where
  pub course_key : CourseKey
  pub users : List String

unfoldable pub item_deleted_handler : CourseKey → List StaleTask → List StaleTask
item_deleted_handler course_key tasks = tasks ++ record { course_key = course_key; users = [] } ∷ []

unfoldable pub course_published_handler : CourseKey → List StaleTask → List StaleTask
course_published_handler course_key tasks =
    tasks ++ record { course_key = course_key; users = [] } ∷ []

unfoldable pub cohort_updated_handler : User → CourseKey → List StaleTask → List StaleTask
cohort_updated_handler user course_key tasks =
    tasks ++ record { course_key = course_key; users = user.username ∷ [] } ∷ []

-- The default of `batch_size` in `perform_aggregation`.
abbrev pub default_batch_size : ℕ
default_batch_size = 10000

-- Whether a user is in the list, by primary key.
abbrev pub has_user : User → List User → Bool
has_user user [] = false
has_user user (u ∷ rest) = if u.id == user.id then true else has_user user rest

-- `User.objects.get(username=…)` returns a user of that name, if it returns one.
abbrev pub IsLookup : (String → Option User) → Type 0
IsLookup find_user =
    (name : String) (user : User) → find_user name ≡ some user → user.username ≡ name

-- What the task makes of the keys: a set of keys of the course.
unfoldable pub changed_blocks_of :
    Platform → CourseKey → List BlockKey → List BlockKey → List BlockKey
changed_blocks_of platform course_key [] keys = keys
changed_blocks_of platform course_key (key ∷ rest) keys =
    changed_blocks_of platform course_key rest (add (platform.map_into_course key course_key) keys)

module _ {F : Type 0} where
  -- `get_active_users`: the distinct users of the course's aggregators.
  unfoldable pub get_active_users : CourseKey → List (Aggregator F) → List User
  get_active_users course_key [] = []
  get_active_users course_key (row ∷ rows) =
      let rest = get_active_users course_key rows in
      if row.course_key == course_key
      then if has_user row.user rest then rest else row.user ∷ rest
      else rest

  -- `StaleCompletion.objects.create`
  unfoldable pub create_stale :
      Platform → String → CourseKey → Option BlockKey → Bool → Database F → Database F
  create_stale platform username course_key block_key force db = record db {
    stale_completions =
        db.stale_completions
        ++ record {
          id = db.next_id;
          username = username;
          course_key = course_key;
          block_key = block_key;
          force = force;
          resolved = false;
          modified = platform.clock db.ticks;
        }
          ∷ [];
    next_id = db.next_id + 1;
    ticks = db.ticks + 1;
  }

  -- `StaleCompletion.objects.bulk_create`
  unfoldable pub create_all_stale : Platform → CourseKey → List String → Database F → Database F
  unfolding create_stale
  create_all_stale platform course_key [] db = db
  create_all_stale platform course_key (username ∷ rest) db =
      create_all_stale platform course_key rest
        (create_stale platform username course_key none true db)

  -- The users that the task names, or all the active ones.
  unfoldable pub usernames_of : StaleTask → List (Aggregator F) → List String
  unfolding get_active_users
  usernames_of task rows = elim task.users [
    | [] ↦ map (λ (user : User). user.username) (get_active_users task.course_key rows)
    | name ∷ names ↦ name ∷ names
  ]

  -- `mark_all_stale`
  unfoldable pub mark_all_stale : Platform → StaleTask → Service F → Result (Unit {0}) × Service F
  unfolding usernames_of create_all_stale delete_group perform_aggregation
  mark_all_stale platform task s =
      let usernames = usernames_of task s.database.aggregators in
      let s' = record s {
        database =
            (delete_group platform task.course_key
              (create_all_stale platform task.course_key usernames s.database)).1;
      } in
      if platform.settings.async_aggregation
      then (ok tt, s')
      else perform_aggregation default_batch_size none s'

  abbrev pub then_cleanup : Result (Unit {0}) × Service F → Result (Unit {0}) × Service F
  then_cleanup (raise e, s) = (raise e, s)
  then_cleanup (ok _, s) = (ok tt, perform_cleanup s)

  -- The part of `completion_updated_handler` that runs where aggregation is not asynchronous.
  abbrev pub aggregate_now : Service F → Result (Unit {0}) × Service F
  aggregate_now s = then_cleanup (perform_aggregation default_batch_size none s)

  unfoldable pub completion_updated_handler :
      Platform → User → CourseKey → BlockKey → Bool → Service F → Result (Unit {0}) × Service F
  unfolding create_stale perform_aggregation perform_cleanup
  completion_updated_handler platform user context_key block_key raw s =
      let s' = record s {
        database =
            create_stale platform user.username context_key (some block_key) false s.database;
      } in
      if raw
      then (ok tt, s)
      else if platform.settings.async_aggregation
      then (ok tt, s')
      else aggregate_now s'

module _ {F : Type 0} ⦃fl : Float F⦄ where
  -- The task `update_aggregators`; `find_user` is `User.objects.get(username=…)`.
  unfoldable pub run_update_task :
      Platform
      → Lms F
      → Option CacheEntry
      → (String → Option User)
      → UpdateTask
      → Query F (Unit {0})
  unfolding changed_blocks_of update_aggregators mark_resolved
  run_update_task platform lms cached find_user task db =
      elim (find_user task.enrollment.username) [
        | none ↦ (
          ok tt,
          record db {
            stale_completions =
                mark_resolved (λ stale. str_eq stale.username task.enrollment.username)
                  db.stale_completions;
          },
        )
        | some user ↦
            update_aggregators platform lms cached user task.enrollment.course_key
              (changed_blocks_of platform task.enrollment.course_key task.block_keys []) task.force
              db
      ]
