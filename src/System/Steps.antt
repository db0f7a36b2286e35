-- ===== src/System/Steps.antt =====
-- The steps of the aggregator as a whole keep what holds between them.
use openedx_completion_aggre.Prelude.{
  ℕ, subst, inl, inr, Bool, true, false, none, some, All, All-append_without, Bool-cases, arith,
  Result, ok, raise,
}
use openedx_completion_aggre.Float.{Float}
use openedx_completion_aggre.Platform.{CourseKey, BlockKey, User, Platform}
use openedx_completion_aggre.CacheGroup.{delete_group}
use openedx_completion_aggre.Batch.{Service, perform_aggregation}
use openedx_completion_aggre.Batch.Runs.{IsSmall}
use openedx_completion_aggre.Signals.{
  StaleTask, create_stale, create_all_stale, usernames_of, mark_all_stale, default_batch_size,
  completion_updated_handler, then_cleanup,
}
use openedx_completion_aggre.System.{
  with_completion, with_marks, Step, completion_saved, marked_stale, reaggregated, aggregated,
  interrupted, completion_interrupted, marked_interrupted, cleaned, cleanup_failed,
  aggregation_expired, cleanup_expired, task_run, Reach, start, later,
}
use openedx_completion_aggre.System.Invariant.{
  Inv, Inv-database, create_stale-IsSoundDatabase, create_all_stale-IsSoundDatabase,
  delete_group-IsSoundDatabase, reaggregate_course-IsSoundDatabase, perform_aggregation-Inv,
  interrupted_aggregation-Inv, perform_cleanup-Inv, run_update_task-IsSoundDatabase,
}

module _ {F : Type 0} ⦃fl : Float F⦄ where
  then_cleanup-Inv : (r : Result (Unit {0}) × Service F) → Inv r.1 → Inv (then_cleanup r).1
  then_cleanup-Inv (raise e, s) inv = inv
  then_cleanup-Inv (ok a, s) inv = perform_cleanup-Inv s inv

  with_completion-Inv :
      (platform : Platform) (user : User) (context_key : CourseKey) (block_key : BlockKey)
      (s : Service F)
      → Inv s
      → Inv (with_completion platform user context_key block_key s)
  with_completion-Inv platform user context_key block_key s inv =
      Inv-database s
        (create_stale platform user.username context_key (some block_key) false s.database)
        (create_stale-IsSoundDatabase platform user.username context_key (some block_key) false
          s.database inv.sound)
        inv

  with_marks-Inv :
      (platform : Platform) (task : StaleTask) (s : Service F)
      → Inv s
      → Inv (with_marks platform task s)
  with_marks-Inv platform task s inv =
      let usernames = usernames_of task s.database.aggregators in
      let db = create_all_stale platform task.course_key usernames s.database in
      Inv-database s (delete_group platform task.course_key db).1
        (delete_group-IsSoundDatabase platform task.course_key db (
          create_all_stale-IsSoundDatabase platform task.course_key usernames s.database inv.sound))
        inv

  completion_updated_handler-Inv :
      (platform : Platform) (user : User) (context_key : CourseKey) (block_key : BlockKey)
      (raw : Bool) (s : Service F)
      → Inv s
      → Inv (completion_updated_handler platform user context_key block_key raw s).1
  unfolding completion_updated_handler
  completion_updated_handler-Inv platform user context_key block_key true s inv = inv
  completion_updated_handler-Inv platform user context_key block_key false s inv =
      let s' = with_completion platform user context_key block_key s in
      let now = with_completion-Inv platform user context_key block_key s inv in
      elim (Bool-cases platform.settings.async_aggregation) [
        | inl async ↦ rw async now
        | inr sync ↦ rw sync (
            then_cleanup-Inv (perform_aggregation default_batch_size none s')
              (perform_aggregation-Inv default_batch_size none s' now))
      ]

  mark_all_stale-Inv :
      (platform : Platform) (task : StaleTask) (s : Service F)
      → Inv s
      → Inv (mark_all_stale platform task s).1
  unfolding mark_all_stale
  mark_all_stale-Inv platform task s inv =
      let s' = with_marks platform task s in
      let now = with_marks-Inv platform task s inv in
      elim (Bool-cases platform.settings.async_aggregation) [
        | inl async ↦ rw async now
        | inr sync ↦ rw sync (perform_aggregation-Inv default_batch_size none s' now)
      ]

  -- Every step keeps the invariant: no two aggregators share a key, each has the percentage that
  -- get_percent computes, the ids of the stale completions increase, and each queued task has at
  -- most sixteen keys.
  pub Step-Inv : (platform : Platform) {s t : Service F} → Step platform s t → Inv s → Inv t
  Step-Inv platform {s} (completion_saved user context_key block_key raw) inv =
      completion_updated_handler-Inv platform user context_key block_key raw s inv
  Step-Inv platform {s} (marked_stale task) inv = mark_all_stale-Inv platform task s inv
  Step-Inv platform {s} (reaggregated enrolled course_keys) inv =
      Inv-database s _
        (reaggregate_course-IsSoundDatabase platform enrolled course_keys s.database inv.sound) inv
  Step-Inv platform {s} (aggregated batch_size limit) inv =
      perform_aggregation-Inv batch_size limit s inv
  Step-Inv platform {s} (interrupted sent batch_size limit) inv =
      interrupted_aggregation-Inv sent batch_size limit s inv
  Step-Inv platform {s} (completion_interrupted sent user context_key block_key sync) inv =
      interrupted_aggregation-Inv sent default_batch_size none
        (with_completion platform user context_key block_key s)
        (with_completion-Inv platform user context_key block_key s inv)
  Step-Inv platform {s} (marked_interrupted sent task sync) inv =
      interrupted_aggregation-Inv sent default_batch_size none (with_marks platform task s)
        (with_marks-Inv platform task s inv)
  Step-Inv platform {s} cleaned inv = perform_cleanup-Inv s inv
  Step-Inv platform {s} (cleanup_failed free) inv = record { sound = inv.sound; small = inv.small }
  Step-Inv platform {s} aggregation_expired inv = record { sound = inv.sound; small = inv.small }
  Step-Inv platform {s} cleanup_expired inv = record { sound = inv.sound; small = inv.small }
  Step-Inv platform {s} (task_run lms cached find_user before task after lookup queued) inv =
      record {
        sound =
            run_update_task-IsSoundDatabase platform lms cached find_user task s.database inv.sound;
        small = All-append_without IsSmall before task after (subst (All IsSmall) queued inv.small);
      }

  -- In every state that is reached from empty tables, also through runs that fail and locks that
  -- expire: no two aggregators share a key, each has the percentage that get_percent computes, the
  -- ids of the stale completions increase, and each queued task has at most sixteen keys.
  pub Reach-Inv : (platform : Platform) {ticks : ℕ} {s : Service F} → Reach platform ticks s → Inv s
  Reach-Inv platform start = record {
    sound = (record { unique = tt; percents = tt }, omega arith);
    small = tt;
  }
  Reach-Inv platform (later r step) = Step-Inv platform step (Reach-Inv platform r)
