-- ===== src/System/Pending.antt =====
-- What each step does to the stale completions that are not resolved.
use openedx_completion_aggre.Prelude.{
  ℕ, ◌≡◌, sym, ap, ◌∙◌, subst, ◌⊎◌, inl, inr, String, Bool, true, false, not, Option, none, List,
  [], ◌∷◌, In, In-append_left, In-select, str_eq, str_eq_iff, Option-cases, Bool-cases, map, Result,
  ok, raise, ltb, length, ◌+◌,
}
use openedx_completion_aggre.Float.{Float}
use openedx_completion_aggre.Platform.{CourseKey, BlockKey, User, Platform}
use openedx_completion_aggre.Models.{StaleCompletion, Database}
use openedx_completion_aggre.Models.Preserving.{Preserves}
use openedx_completion_aggre.CacheGroup.{delete_group}
use openedx_completion_aggre.Core.Updater.{CacheEntry, Lms}
use openedx_completion_aggre.Core.Preserving.{IsFor, KeptByUpdates, Preserves-update_aggregators}
use openedx_completion_aggre.Core.Resolving.{In-mark_resolved, Present, Present-KeptByWrites}
use openedx_completion_aggre.Batch.{
  UpdateTask, Service, perform_aggregation, interrupted_aggregation, perform_cleanup,
}
use openedx_completion_aggre.Batch.Runs.{perform_aggregation-database}
use openedx_completion_aggre.Signals.{
  StaleTask, IsLookup, create_stale, create_all_stale, usernames_of, mark_all_stale,
  default_batch_size, completion_updated_handler, then_cleanup, changed_blocks_of, run_update_task,
}
use openedx_completion_aggre.Commands.{reaggregate_course}
use openedx_completion_aggre.System.{
  with_completion, with_marks, Step, completion_saved, marked_stale, reaggregated, aggregated,
  interrupted, completion_interrupted, marked_interrupted, cleaned, cleanup_failed,
  aggregation_expired, cleanup_expired, task_run,
}

-- The step runs a task of the learner.
abbrev pub RunsTaskOf :
    {F : Type 0} ⦃fl : Float F⦄ {platform : Platform} {s t : Service F}
    → String
    → Step platform s t
    → Type 0
RunsTaskOf name (completion_saved user context_key block_key raw) = ⊥
RunsTaskOf name (marked_stale task) = ⊥
RunsTaskOf name (reaggregated enrolled course_keys) = ⊥
RunsTaskOf name (aggregated batch_size limit) = ⊥
RunsTaskOf name (interrupted sent batch_size limit) = ⊥
RunsTaskOf name (completion_interrupted sent user context_key block_key sync) = ⊥
RunsTaskOf name (marked_interrupted sent task sync) = ⊥
RunsTaskOf name (cleanup_failed free) = ⊥
RunsTaskOf name aggregation_expired = ⊥
RunsTaskOf name cleanup_expired = ⊥
RunsTaskOf name cleaned = ⊥
RunsTaskOf name (task_run lms cached find_user before task after lookup queued) =
    task.enrollment.username ≡ name

module _ (row : StaleCompletion) (pending : row.resolved ≡ false) {F : Type 0} ⦃fl : Float F⦄ where
  Present-KeptByUpdates :
      (name : String) → str_eq row.username name ≡ false → KeptByUpdates name (Present row {F = F})
  Present-KeptByUpdates name other = record {
    writes = Present-KeptByWrites row;
    readings = λ db n h. h;
    resolutions = λ db p own h. In-mark_resolved row p db.stale_completions (misses p own) h;
  }
    where
      apart : false ≡ true → ⊥
      apart e = cc

      misses : (p : StaleCompletion → Bool) → IsFor name p → p row ≡ false
      misses p own = elim (Bool-cases (p row)) [
        | inl hit ↦ absurd (apart (sym other ∙ (str_eq_iff row.username name).1 (own row hit)))
        | inr miss ↦ miss
      ]

  run_update_task-Present :
      (platform : Platform) (lms : Lms F) (cached : Option CacheEntry)
      (find_user : String → Option User) (task : UpdateTask)
      → IsLookup find_user
      → str_eq row.username task.enrollment.username ≡ false
      → Preserves (Present row) (run_update_task platform lms cached find_user task)
  unfolding run_update_task
  run_update_task-Present platform lms cached find_user task lookup other db h =
      let name = task.enrollment.username in
      elim (Option-cases (find_user name)) [
        | inl missing ↦
            rw (missing, run_update_task)
              (In-mark_resolved row (λ stale. str_eq stale.username name) db.stale_completions other
                h)
        | inr (user, found) ↦
            rw (found, run_update_task)
              (Preserves-update_aggregators (Present row) user
                (Present-KeptByUpdates user.username
                  (ap (λ n. str_eq row.username n) (lookup name user found) ∙ other))
                platform lms cached task.enrollment.course_key
                (changed_blocks_of platform task.enrollment.course_key task.block_keys [])
                task.force db h)
      ]

  create_all_stale-Present :
      (platform : Platform) (course_key : CourseKey) (usernames : List String) (db : Database F)
      → Present row db
      → Present row (create_all_stale platform course_key usernames db)
  unfolding create_all_stale create_stale
  create_all_stale-Present platform course_key [] db h = h
  create_all_stale-Present platform course_key (name ∷ names) db h =
      create_all_stale-Present platform course_key names
        (create_stale platform name course_key none true db)
        (In-append_left row db.stale_completions _ h)

  reaggregate_course-Present :
      (platform : Platform) (enrolled : CourseKey → List User) (course_keys : List CourseKey)
      (db : Database F)
      → Present row db
      → Present row (reaggregate_course platform enrolled course_keys db)
  unfolding reaggregate_course
  reaggregate_course-Present platform enrolled [] db h = h
  reaggregate_course-Present platform enrolled (course_key ∷ rest) db h =
      let usernames = map (λ (user : User). user.username) (enrolled course_key) in
      reaggregate_course-Present platform enrolled rest
        (create_all_stale platform course_key usernames db)
        (create_all_stale-Present platform course_key usernames db h)

  perform_aggregation-Present :
      (batch_size : ℕ) (limit : Option ℕ) (s : Service F)
      → Present row s.database
      → Present row (perform_aggregation batch_size limit s).1.database
  perform_aggregation-Present batch_size limit s h =
      subst (Present row) (sym (perform_aggregation-database batch_size limit s)) h

  interrupted_aggregation-Present :
      (sent batch_size : ℕ) (limit : Option ℕ) (s : Service F)
      → Present row s.database
      → Present row (interrupted_aggregation sent batch_size limit s).1.database
  unfolding interrupted_aggregation
  interrupted_aggregation-Present sent batch_size limit s h =
      let run = perform_aggregation batch_size limit s in
      elim (Bool-cases (ltb (length s.queue + sent) (length run.1.queue))) [
        | inl more ↦ rw more h
        | inr all ↦ rw all (perform_aggregation-Present batch_size limit s h)
      ]

  with_completion-Present :
      (platform : Platform) (user : User) (context_key : CourseKey) (block_key : BlockKey)
      (s : Service F)
      → Present row s.database
      → Present row (with_completion platform user context_key block_key s).database
  unfolding create_stale
  with_completion-Present platform user context_key block_key s h =
      In-append_left row s.database.stale_completions _ h

  with_marks-Present :
      (platform : Platform) (task : StaleTask) (s : Service F)
      → Present row s.database
      → Present row (with_marks platform task s).database
  unfolding delete_group
  with_marks-Present platform task s h =
      create_all_stale-Present platform task.course_key (usernames_of task s.database.aggregators)
        s.database h

  perform_cleanup-Present :
      (s : Service F) → Present row s.database → Present row (perform_cleanup s).database
  unfolding perform_cleanup
  perform_cleanup-Present s h = elim (Bool-cases s.cleanup_lock) [
    | inl taken ↦ rw taken h
    | inr free ↦ rw free (
        In-select (λ stale. not stale.resolved) row s.database.stale_completions h (ap not pending))
  ]

  then_cleanup-Present :
      (r : Result (Unit {0}) × Service F)
      → Present row r.1.database
      → Present row (then_cleanup r).1.database
  then_cleanup-Present (raise e, s) h = h
  then_cleanup-Present (ok a, s) h = perform_cleanup-Present s h

  completion_updated_handler-Present :
      (platform : Platform) (user : User) (context_key : CourseKey) (block_key : BlockKey)
      (raw : Bool) (s : Service F)
      → Present row s.database
      → Present row
          (completion_updated_handler platform user context_key block_key raw s).1.database
  unfolding completion_updated_handler create_stale
  completion_updated_handler-Present platform user context_key block_key true s h = h
  completion_updated_handler-Present platform user context_key block_key false s h =
      let s' = with_completion platform user context_key block_key s in
      let now = with_completion-Present platform user context_key block_key s h in
      elim (Bool-cases platform.settings.async_aggregation) [
        | inl async ↦ rw async now
        | inr sync ↦ rw sync (
            then_cleanup-Present (perform_aggregation default_batch_size none s')
              (perform_aggregation-Present default_batch_size none s' now))
      ]

  mark_all_stale-Present :
      (platform : Platform) (task : StaleTask) (s : Service F)
      → Present row s.database
      → Present row (mark_all_stale platform task s).1.database
  unfolding mark_all_stale delete_group
  mark_all_stale-Present platform task s h =
      let s' = with_marks platform task s in
      let now = with_marks-Present platform task s h in
      elim (Bool-cases platform.settings.async_aggregation) [
        | inl async ↦ rw async now
        | inr sync ↦ rw sync (perform_aggregation-Present default_batch_size none s' now)
      ]

  -- Whatever the steps do, a stale completion that is not resolved stays in the table as it is,
  -- unless the step runs a task of its learner: no handler, command, aggregation or cleanup, and
  -- no task of another learner, resolves or deletes it.
  pub Step-In :
      (platform : Platform) {s t : Service F} (step : Step platform s t)
      → In row s.database.stale_completions
      → In row t.database.stale_completions ⊎ RunsTaskOf row.username step
  Step-In platform {s} (completion_saved user context_key block_key raw) h =
      inl (completion_updated_handler-Present platform user context_key block_key raw s h)
  Step-In platform {s} (marked_stale task) h = inl (mark_all_stale-Present platform task s h)
  Step-In platform {s} (reaggregated enrolled course_keys) h =
      inl (reaggregate_course-Present platform enrolled course_keys s.database h)
  Step-In platform {s} (aggregated batch_size limit) h =
      inl (perform_aggregation-Present batch_size limit s h)
  Step-In platform {s} (interrupted sent batch_size limit) h =
      inl (interrupted_aggregation-Present sent batch_size limit s h)
  Step-In platform {s} (completion_interrupted sent user context_key block_key sync) h = inl (
      interrupted_aggregation-Present sent default_batch_size none
        (with_completion platform user context_key block_key s)
        (with_completion-Present platform user context_key block_key s h))
  Step-In platform {s} (marked_interrupted sent task sync) h = inl (
      interrupted_aggregation-Present sent default_batch_size none (with_marks platform task s)
        (with_marks-Present platform task s h))
  Step-In platform (cleanup_failed free) h = inl h
  Step-In platform aggregation_expired h = inl h
  Step-In platform cleanup_expired h = inl h
  Step-In platform {s} cleaned h = inl (perform_cleanup-Present s h)
  Step-In platform {s} (task_run lms cached find_user before task after lookup queued) h =
      elim (Bool-cases (str_eq row.username task.enrollment.username)) [
        | inl own ↦ inr (sym ((str_eq_iff row.username task.enrollment.username).0 own))
        | inr other ↦
            inl
              (run_update_task-Present platform lms cached find_user task lookup other s.database h)
      ]
