-- ===== src/System/Locks.antt =====
-- When a step leaves the lock of `perform_aggregation` (batch.py) held.
use openedx_completion_aggre.Prelude.{
  ℕ, zero, suc, ◌≡◌, refl, ap, ◌∙◌, ◌⊎◌, inl, inr, Bool, true, false, Option, none, Bool-cases,
  arith, Result, ok, raise,
}
use openedx_completion_aggre.Float.{Float}
use openedx_completion_aggre.Platform.{CourseKey, BlockKey, User, Platform}
use openedx_completion_aggre.Batch.{Service, perform_aggregation, perform_cleanup}
use openedx_completion_aggre.Batch.Runs.{perform_aggregation-IsRunOf}
use openedx_completion_aggre.Signals.{
  StaleTask, mark_all_stale, default_batch_size, completion_updated_handler, then_cleanup,
}
use openedx_completion_aggre.System.{
  with_completion, with_marks, Step, completion_saved, marked_stale, reaggregated, aggregated,
  interrupted, completion_interrupted, marked_interrupted, cleaned, cleanup_failed,
  aggregation_expired, cleanup_expired, task_run,
}

-- The step is a run with batch size 0, or one in which the queue refuses a task.
abbrev pub FailsToRun :
    {F : Type 0} ⦃fl : Float F⦄ {platform : Platform} {s t : Service F} → Step platform s t → Type 0
FailsToRun (completion_saved user context_key block_key raw) = ⊥
FailsToRun (marked_stale task) = ⊥
FailsToRun (reaggregated enrolled course_keys) = ⊥
FailsToRun (aggregated batch_size limit) = batch_size ≡ 0
FailsToRun (interrupted sent batch_size limit) = Unit
FailsToRun (completion_interrupted sent user context_key block_key sync) = Unit
FailsToRun (marked_interrupted sent task sync) = Unit
FailsToRun cleaned = ⊥
FailsToRun (cleanup_failed free) = ⊥
FailsToRun aggregation_expired = ⊥
FailsToRun cleanup_expired = ⊥
FailsToRun (task_run lms cached find_user before task after lookup queued) = ⊥

module _ {F : Type 0} ⦃fl : Float F⦄ where
  perform_aggregation-frees :
      (n : ℕ) (limit : Option ℕ) (s : Service F)
      → s.aggregation_lock ≡ false
      → (perform_aggregation (suc n) limit s).1.aggregation_lock ≡ false
  perform_aggregation-frees n limit s free =
      let (tasks, run, _) = perform_aggregation-IsRunOf (suc n) limit s free (omega arith) in
      ap (λ (r : Result (Unit {0}) × Service F). r.1.aggregation_lock) run

  perform_cleanup-aggregation_lock :
      (s : Service F) → (perform_cleanup s).aggregation_lock ≡ s.aggregation_lock
  unfolding perform_cleanup
  perform_cleanup-aggregation_lock s = ground arith

  then_cleanup-frees :
      (r : Result (Unit {0}) × Service F)
      → r.1.aggregation_lock ≡ false
      → (then_cleanup r).1.aggregation_lock ≡ false
  then_cleanup-frees (raise e, s) free = free
  then_cleanup-frees (ok a, s) free = perform_cleanup-aggregation_lock s ∙ free

  completion_updated_handler-frees :
      (platform : Platform) (user : User) (context_key : CourseKey) (block_key : BlockKey)
      (raw : Bool) (s : Service F)
      → s.aggregation_lock ≡ false
      → (completion_updated_handler platform user context_key block_key raw s).1.aggregation_lock
        ≡ false
  unfolding completion_updated_handler
  completion_updated_handler-frees platform user context_key block_key true s free = free
  completion_updated_handler-frees platform user context_key block_key false s free =
      let s' = with_completion platform user context_key block_key s in
      elim (Bool-cases platform.settings.async_aggregation) [
        | inl async ↦ rw async free
        | inr sync ↦ rw sync (
            then_cleanup-frees (perform_aggregation default_batch_size none s')
              (perform_aggregation-frees 9999 none s' free))
      ]

  mark_all_stale-frees :
      (platform : Platform) (task : StaleTask) (s : Service F)
      → s.aggregation_lock ≡ false
      → (mark_all_stale platform task s).1.aggregation_lock ≡ false
  unfolding mark_all_stale
  mark_all_stale-frees platform task s free =
      elim (Bool-cases platform.settings.async_aggregation) [
        | inl async ↦ rw async free
        | inr sync ↦ rw sync (perform_aggregation-frees 9999 none (with_marks platform task s) free)
      ]

  -- A step that finds the lock of perform_aggregation free leaves it free, unless the step is a run
  -- with batch size 0 or one in which the queue refuses a task.
  pub Step-aggregation_lock :
      (platform : Platform) {s t : Service F} (step : Step platform s t)
      → s.aggregation_lock ≡ false
      → (t.aggregation_lock ≡ false) ⊎ FailsToRun step
  Step-aggregation_lock platform {s} (completion_saved user context_key block_key raw) free =
      inl (completion_updated_handler-frees platform user context_key block_key raw s free)
  Step-aggregation_lock platform {s} (marked_stale task) free =
      inl (mark_all_stale-frees platform task s free)
  Step-aggregation_lock platform (reaggregated enrolled course_keys) free = inl free
  Step-aggregation_lock platform (aggregated zero limit) free = inr refl
  Step-aggregation_lock platform {s} (aggregated (suc n) limit) free =
      inl (perform_aggregation-frees n limit s free)
  Step-aggregation_lock platform (interrupted sent batch_size limit) free = inr tt
  Step-aggregation_lock platform (completion_interrupted sent user context_key block_key sync)
        free =
      inr tt
  Step-aggregation_lock platform (marked_interrupted sent task sync) free = inr tt
  Step-aggregation_lock platform {s} cleaned free = inl (perform_cleanup-aggregation_lock s ∙ free)
  Step-aggregation_lock platform (cleanup_failed cleanup_free) free = inl free
  Step-aggregation_lock platform aggregation_expired free = inl refl
  Step-aggregation_lock platform cleanup_expired free = inl free
  Step-aggregation_lock platform (task_run lms cached find_user before task after lookup queued)
        free =
      inl free
