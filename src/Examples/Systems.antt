-- ===== src/Examples/Systems.antt =====
-- The aggregator as a whole on small states.
use openedx_completion_aggre.Prelude.{
  ℕ, String, ◌≡◌, ◌⊎◌, refl, inl, inr, Option, none, some, List, [], ◌∷◌, ◌++◌, In, true, false, ok,
  arith, str_eq, str_eq_iff, if◌then◌else◌, ◌+◌, ◌<◌, length,
}
use openedx_completion_aggre.Float.{thousandths}
use openedx_completion_aggre.Platform.{User}
use openedx_completion_aggre.Batch.{
  UpdateTask, Service, tasks_of, collect, perform_aggregation, interrupted_aggregation,
}
use openedx_completion_aggre.Batch.Queue.{Serves}
use openedx_completion_aggre.Core.Updater.{CacheEntry}
use openedx_completion_aggre.Signals.{
  IsLookup, default_batch_size, completion_updated_handler, run_update_task,
}
use openedx_completion_aggre.Signals.Completions.{new_row}
use openedx_completion_aggre.Signals.Running.{Settles, run_update_task-Settles}
use openedx_completion_aggre.System.{
  with_completion, Step, Reach, start, later, start_of, completion_saved, completion_interrupted,
  aggregation_expired, aggregated, task_run,
}
use openedx_completion_aggre.System.Locks.{FailsToRun, Step-aggregation_lock}
use openedx_completion_aggre.System.Invariant.{Inv}
use openedx_completion_aggre.System.Steps.{Reach-Inv}
use openedx_completion_aggre.System.Pending.{RunsTaskOf, Step-In}
use openedx_completion_aggre.System.Limits.{perform_aggregation-length}
use openedx_completion_aggre.System.Serving.{completion_updated_handler-Reach}
use openedx_completion_aggre.Examples.{learner, platform, blocks, lms}
use openedx_completion_aggre.Examples.Queues.{stale_row, service}

-- A saved completion, another one whose task the queue refuses, and a run with batch size 0 after
-- the lock has expired.
abbrev refused : Service ℕ
refused =
    (interrupted_aggregation 0 default_batch_size none (
      with_completion platform learner 9 5
        (completion_updated_handler platform learner 9 4 false (start_of 0)).1)).1

refused_run : Reach platform 0 refused
refused_run =
    later (later start (completion_saved learner 9 4 false))
      (completion_interrupted 0 learner 9 5 refl)

refused-aggregation_lock : refused.aggregation_lock ≡ true
unfolding interrupted_aggregation completion_updated_handler collect tasks_of
refused-aggregation_lock = refl

Reach-Inv_example : Inv (perform_aggregation 0 none (record refused { aggregation_lock = false })).1
Reach-Inv_example =
    Reach-Inv platform {ticks = 0}
      (later (later refused_run aggregation_expired) (aggregated 0 none))

saving :
    Step platform
      (start_of {F = ℕ} 0)
      (completion_updated_handler platform learner 9 4 false (start_of 0)).1
saving = completion_saved learner 9 4 false

Step-aggregation_lock_example :
    ((completion_updated_handler {F = ℕ} platform learner 9 4 false (start_of 0)).1.aggregation_lock
      ≡ false)
    ⊎ FailsToRun saving
Step-aggregation_lock_example = Step-aggregation_lock platform saving refl

completion_updated_handler-Reach_example :
    (s' : Service ℕ) × (tasks : List UpdateTask) × (completion_updated_handler platform learner 9 4
        false
        (start_of 0)
      ≡ (ok tt, s'))
    × (s'.queue ≡ [] ++ tasks)
    × ((task : UpdateTask) × In task tasks
        × Serves (new_row platform learner 9 4 (start_of {F = ℕ} 0).database) task)
completion_updated_handler-Reach_example =
    completion_updated_handler-Reach platform (start_of 0) learner 9 4 refl start refl

abbrev task_for : String → UpdateTask
task_for name = record {
  enrollment = record { username = name; course_key = 9 };
  block_keys = 4 ∷ [];
  force = false;
}

abbrev find_learner : String → Option User
find_learner name = if str_eq name "ana" then some learner else none

find_learner-IsLookup : IsLookup find_learner
find_learner-IsLookup name user e = ground (arith, str_eq_iff name "ana")

abbrev waiting : Service ℕ
waiting = record (service (stale_row 5 ∷ [])) { queue = task_for "bob" ∷ [] }

others_step : Step platform waiting (record waiting {
  database = (run_update_task platform lms none find_learner (task_for "bob") waiting.database).1;
  queue = [];
})
others_step = task_run lms none find_learner [] (task_for "bob") [] find_learner-IsLookup refl

Step-In_example :
    In
      (stale_row 5)
      (run_update_task platform lms none find_learner
        (task_for "bob")
        waiting.database).1.stale_completions
    ⊎ RunsTaskOf "ana" others_step
Step-In_example = Step-In (stale_row 5) refl platform others_step (inl refl)

abbrev cached : CacheEntry
cached = record { course_blocks = blocks; root_block = 1 }

task_for-Serves : Serves (stale_row 5) (task_for "ana")
task_for-Serves = record { enrollment = refl; recalculates = inr (4, refl, refl); forced = λ e. e }

run_update_task-Settles_example :
    Settles
      (stale_row 5)
      (run_update_task platform lms (some cached) find_learner (task_for "ana") waiting.database)
run_update_task-Settles_example =
    run_update_task-Settles (stale_row 5) platform lms (some cached) find_learner (task_for "ana")
      waiting.database find_learner-IsLookup task_for-Serves (λ k e. refl) (omega arith) (inl refl)

-- The state after one completion was saved.
abbrev saved : Service ℕ
saved = (completion_updated_handler platform learner 9 4 false (start_of 0)).1

perform_aggregation-length_example :
    (tasks : List UpdateTask) × (perform_aggregation 10 (some 3) saved
      ≡ (ok tt, record saved { queue = saved.queue ++ tasks }))
    × (length tasks < 3 + 10)
perform_aggregation-length_example =
    perform_aggregation-length platform {ticks = 0} saved
      (later start (completion_saved learner 9 4 false)) 10 3 (omega arith)
