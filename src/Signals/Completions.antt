-- ===== src/Signals/Completions.antt =====
-- `completion_updated_handler` (signals.py) and the aggregator service.
use openedx_completion_aggre.Prelude.{
  ◌<◌, ◌≡◌, refl, ap, ◌∙◌, inl, inr, false, not, none, some, List, ◌++◌, In, In-select,
  In-select_source, In-append_right, In-append_cases, ok, arith, Bool-cases,
}
use openedx_completion_aggre.Platform.{CourseKey, BlockKey, User, Platform}
use openedx_completion_aggre.Models.{StaleCompletion, Database}
use openedx_completion_aggre.Batch.{
  UpdateTask, Service, unresolved, perform_aggregation, perform_cleanup,
}
use openedx_completion_aggre.Batch.Windows.{IsReached, near_newest}
use openedx_completion_aggre.Batch.Queue.{Serves, perform_aggregation-Serves}
use openedx_completion_aggre.Signals.{
  create_stale, completion_updated_handler, default_batch_size, aggregate_now, then_cleanup,
}

-- The id of every row is less than the next one.
abbrev pub IsNumbered : {F : Type 0} → Database F → Type 0
IsNumbered db = (row : StaleCompletion) → In row db.stale_completions → row.id < db.next_id

module _ {F : Type 0} (platform : Platform) (user : User) (context_key : CourseKey)
    (block_key : BlockKey) where
  -- The row that the handler creates.
  abbrev pub new_row : Database F → StaleCompletion
  new_row db = record {
    id = db.next_id;
    username = user.username;
    course_key = context_key;
    block_key = some block_key;
    force = false;
    resolved = false;
    modified = platform.clock db.ticks;
  }

  abbrev created : Database F → Database F
  created db = create_stale platform user.username context_key (some block_key) false db

  In-created : (db : Database F) → In (new_row db) (unresolved (created db).stale_completions)
  unfolding create_stale
  In-created db =
      In-select (λ stale. not stale.resolved) (new_row db) _
        (In-append_right (new_row db) db.stale_completions) refl

  IsReached-created :
      (db : Database F)
      → IsNumbered db
      → IsReached default_batch_size (unresolved (created db).stale_completions) (new_row db)
  unfolding create_stale
  IsReached-created db numbered = near_newest λ other m.
      elim (In-append_cases other db.stale_completions
        (In-select_source (λ stale. not stale.resolved) other _ m).0) [
          | inl old ↦ omega (arith, numbered other old)
          | inr e ↦ omega (arith, ap (λ (y : StaleCompletion). y.id) e)
        ]

  aggregate_now_ok :
      (s s' : Service F)
      → perform_aggregation default_batch_size none s ≡ (ok tt, s')
      → aggregate_now s ≡ (ok tt, perform_cleanup s')
  aggregate_now_ok s s' e = ap then_cleanup e

  cleanup-queue : (s : Service F) → (perform_cleanup s).queue ≡ s.queue
  unfolding perform_cleanup
  cleanup-queue s = elim (Bool-cases s.cleanup_lock) [ inl taken ↦ rw taken | inr free ↦ rw free ]

  handler_now :
      (s : Service F)
      → platform.settings.async_aggregation ≡ false
      → completion_updated_handler platform user context_key block_key false s
        ≡ aggregate_now (record s { database = created s.database })
  unfolding completion_updated_handler
  handler_now s now = rw now

  -- Where aggregation is not asynchronous and the aggregation lock is free, saving a completion
  -- (not from a fixture) raises nothing and adds to the queued tasks one of the learner and the
  -- course, which recalculates the whole course or has the block among its keys; however many
  -- older rows are waiting, so long as the ids are given in increasing order.
  pub completion_updated_handler-Serves :
      (s : Service F)
      → platform.settings.async_aggregation ≡ false
      → s.aggregation_lock ≡ false
      → IsNumbered s.database
      → (s' : Service F) × (tasks : List UpdateTask) × (completion_updated_handler platform user
            context_key block_key false s
          ≡ (ok tt, s'))
        × (s'.queue ≡ s.queue ++ tasks)
        × ((task : UpdateTask) × In task tasks × Serves (new_row s.database) task)
  completion_updated_handler-Serves s now free numbered =
      let (s', tasks, run, queue, _, served) =
        perform_aggregation-Serves default_batch_size (record s { database = created s.database })
          (new_row s.database) free (omega arith) (In-created s.database)
          (IsReached-created s.database numbered) in
      (
        perform_cleanup s',
        tasks,
        handler_now s now ∙ aggregate_now_ok _ s' run,
        cleanup-queue s' ∙ queue,
        served,
      )
