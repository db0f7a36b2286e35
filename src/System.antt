-- ===== src/System.antt =====
-- The aggregator as a whole: the handlers, the tasks and the commands (completion_aggregator/signals.py,
-- tasks, batch.py, management/commands) as steps on one state, in any order.
--
-- Each handler, task and command is one step, with any batch size from 0 up, and Celery may run the
-- queued tasks in any order. A run that fails keeps its lock until the lock runs into its timeout.
pub mod Numbering
pub mod Invariant
pub mod Steps
pub mod Pending
pub mod Serving
pub mod Limits
pub mod Locks
use openedx_completion_aggre.Prelude.{
  ℕ, ◌≡◌, String, Bool, true, false, Option, none, some, List, [], ◌∷◌, ◌++◌,
}
use openedx_completion_aggre.Float.{Float}
use openedx_completion_aggre.Platform.{CourseKey, BlockKey, User, Platform}
use openedx_completion_aggre.Models.{Database}
use openedx_completion_aggre.CacheGroup.{delete_group}
use openedx_completion_aggre.Core.Updater.{CacheEntry, Lms}
use openedx_completion_aggre.Batch.{
  UpdateTask, Service, perform_aggregation, interrupted_aggregation, perform_cleanup,
}
use openedx_completion_aggre.Signals.{
  StaleTask, IsLookup, default_batch_size, create_stale, create_all_stale, usernames_of,
  mark_all_stale, completion_updated_handler, run_update_task,
}
use openedx_completion_aggre.Commands.{reaggregate_course}

-- Empty tables, an empty queue and free locks, when the clock has been read `ticks` times.
abbrev pub start_of : {F : Type 0} → ℕ → Service F
start_of ticks = record {
  database = record {
    aggregators = [];
    stale_completions = [];
    invalidations = [];
    events = [];
    next_id = 1;
    ticks = ticks;
  };
  queue = [];
  aggregation_lock = false;
  cleanup_lock = false;
}

module _ {F : Type 0} ⦃fl : Float F⦄ (platform : Platform) where
  -- The state in which the handler of a saved completion, and `mark_all_stale`, start a run.
  abbrev pub with_completion : User → CourseKey → BlockKey → Service F → Service F
  with_completion user context_key block_key s = record s {
    database = create_stale platform user.username context_key (some block_key) false s.database;
  }

  abbrev pub with_marks : StaleTask → Service F → Service F
  with_marks task s = record s {
    database =
        (delete_group platform task.course_key (
          create_all_stale platform task.course_key (usernames_of task s.database.aggregators)
            s.database)).1;
  }

  pub data Step (s : Service F) : Service F → Type 0 where
    completion_saved :
        (user : User) (context_key : CourseKey) (block_key : BlockKey) (raw : Bool)
        → Step s (completion_updated_handler platform user context_key block_key raw s).1
    marked_stale : (task : StaleTask) → Step s (mark_all_stale platform task s).1
    reaggregated :
        (enrolled : CourseKey → List User) (course_keys : List CourseKey)
        → Step s
            (record s { database = reaggregate_course platform enrolled course_keys s.database })
    aggregated :
        (batch_size : ℕ) (limit : Option ℕ) → Step s (perform_aggregation batch_size limit s).1
    -- The queue refuses a task of a run; for a handler or a task, where aggregation is synchronous.
    interrupted :
        (sent batch_size : ℕ) (limit : Option ℕ)
        → Step s (interrupted_aggregation sent batch_size limit s).1
    completion_interrupted :
        (sent : ℕ) (user : User) (context_key : CourseKey) (block_key : BlockKey)
        → platform.settings.async_aggregation ≡ false
        → Step s
            (interrupted_aggregation sent default_batch_size none
              (with_completion user context_key block_key s)).1
    marked_interrupted :
        (sent : ℕ) (task : StaleTask)
        → platform.settings.async_aggregation ≡ false
        → Step s (interrupted_aggregation sent default_batch_size none (with_marks task s)).1
    cleaned : Step s (perform_cleanup s)
    -- The deletion raises, with the lock held.
    cleanup_failed : s.cleanup_lock ≡ false → Step s (record s { cleanup_lock = true })
    -- A lock runs into its timeout.
    aggregation_expired : Step s (record s { aggregation_lock = false })
    cleanup_expired : Step s (record s { cleanup_lock = false })
    task_run :
        (lms : Lms F) (cached : Option CacheEntry) (find_user : String → Option User)
        (before : List UpdateTask) (task : UpdateTask) (after : List UpdateTask)
        → IsLookup find_user
        → s.queue ≡ before ++ task ∷ after
        → Step s (record s {
          database = (run_update_task platform lms cached find_user task s.database).1;
          queue = before ++ after;
        })

  pub data Reach (ticks : ℕ) : Service F → Type 0 where
    start : Reach ticks (start_of ticks)
    later : {s t : Service F} → Reach ticks s → Step s t → Reach ticks t
