-- ===== src/System/Serving.antt =====
-- A completion that is saved while the aggregator runs.
use openedx_completion_aggre.Prelude.{ℕ, ◌≡◌, false, List, ◌++◌, In, ok}
use openedx_completion_aggre.Float.{Float}
use openedx_completion_aggre.Platform.{CourseKey, BlockKey, User, Platform}
use openedx_completion_aggre.Batch.{UpdateTask, Service}
use openedx_completion_aggre.Batch.Queue.{Serves}
use openedx_completion_aggre.Signals.{completion_updated_handler}
use openedx_completion_aggre.Signals.Completions.{new_row, completion_updated_handler-Serves}
use openedx_completion_aggre.System.{Reach}
use openedx_completion_aggre.System.Numbering.{Ascending-In}
use openedx_completion_aggre.System.Steps.{Reach-Inv}

-- In every state that the aggregator reaches from empty tables, also through runs that fail, where
-- the lock is free, aggregation is not asynchronous and the queue takes all tasks, saving a
-- completion (not from a fixture) raises nothing and adds to the queued tasks one of the learner
-- and the course, which recalculates the whole course or has the block among its keys.
pub completion_updated_handler-Reach :
    {F : Type 0} ⦃fl : Float F⦄ (platform : Platform) {ticks : ℕ} (s : Service F) (user : User)
    (context_key : CourseKey) (block_key : BlockKey)
    → platform.settings.async_aggregation ≡ false
    → Reach platform ticks s
    → s.aggregation_lock ≡ false
    → (s' : Service F) × (tasks : List UpdateTask) × (completion_updated_handler platform user
          context_key block_key false s
        ≡ (ok tt, s'))
      × (s'.queue ≡ s.queue ++ tasks)
      × ((task : UpdateTask) × In task tasks
          × Serves (new_row platform user context_key block_key s.database) task)
completion_updated_handler-Reach platform s user context_key block_key now reach free =
    let inv = Reach-Inv platform reach in
    let (sound, ids) = inv.sound in
    completion_updated_handler-Serves platform user context_key block_key s now free
      (λ row m. Ascending-In 0 s.database.next_id s.database.stale_completions row ids m)
