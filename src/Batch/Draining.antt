-- ===== src/Batch/Draining.antt =====
-- Two runs of `perform_aggregation` (batch.py) on the same stale completions.
use openedx_completion_aggre.Prelude.{
  ℕ, ◌+◌, ◌<◌, ◌≡◌, sym, ap, ◌∙◌, subst, inl, inr, false, none, List, ◌++◌, In, In-append_right_all,
  ltb, ltb→lt, Bool-cases, Result, ok, arith,
}
use openedx_completion_aggre.Models.{StaleCompletion}
use openedx_completion_aggre.Batch.{UpdateTask, Service, unresolved, perform_aggregation}
use openedx_completion_aggre.Batch.Windows.{IsReached, near_newest, above_oldest}
use openedx_completion_aggre.Batch.Queue.{Serves, perform_aggregation-Serves}

-- Rows that a run does not reach lie close together.
IsReached-rest :
    (batch_size : ℕ) (rows rest : List StaleCompletion)
    → ((row : StaleCompletion) → In row rest → In row rows × (IsReached batch_size rows row → ⊥))
    → (row : StaleCompletion) → In row rest
    → IsReached batch_size rest row
IsReached-rest batch_size rows rest left row m = near_newest λ other n.
    elim (Bool-cases (ltb other.id (row.id + batch_size))) [
      | inl near ↦ ltb→lt other.id (row.id + batch_size) near
      | inr far ↦ absurd ((left other n).1 (above_oldest row (left row m).0 (ground arith)))
    ]

module _ {F : Type 0} (batch_size : ℕ) (s s₁ : Service F) (free : s.aggregation_lock ≡ false)
    (positive : 0 < batch_size) (run : perform_aggregation batch_size none s ≡ (ok tt, s₁)) where
  served_if_reached :
      (row : StaleCompletion)
      → In row (unresolved s.database.stale_completions)
      → ((task : UpdateTask) → In task s₁.queue → Serves row task → ⊥)
      → IsReached batch_size (unresolved s.database.stale_completions) row
      → ⊥
  served_if_reached row m unserved reach =
      let (s', tasks, run', queue, _, (task, n, serves)) =
        perform_aggregation-Serves batch_size s row free positive m reach in
      let same : s' ≡ s₁ = ap (λ (r : Result (Unit {0}) × Service F). r.1) (sym run' ∙ run) in
      unserved task
        (subst (In task) (sym queue ∙ ap (λ (x : Service F). x.queue) same)
          (In-append_right_all task s.queue tasks n))
        serves

  -- After a run without a limit, with a positive batch size and the lock free: in any state with the
  -- lock free whose unresolved rows were unresolved before that run and have no task in its queue, a
  -- second run with the same batch size and without a limit queues a task for every unresolved row.
  pub perform_aggregation-Drains :
      (t : Service F)
      → t.aggregation_lock ≡ false
      → ((row : StaleCompletion)
          → In row (unresolved t.database.stale_completions)
          → In row (unresolved s.database.stale_completions)
            × ((task : UpdateTask) → In task s₁.queue → Serves row task → ⊥))
      → (row : StaleCompletion) → In row (unresolved t.database.stale_completions)
      → (t' : Service F) × (tasks : List UpdateTask) × (perform_aggregation batch_size none t
          ≡ (ok tt, t'))
        × (t'.queue ≡ t.queue ++ tasks)
        × (t'.aggregation_lock ≡ false)
        × ((task : UpdateTask) × In task tasks × Serves row task)
  perform_aggregation-Drains t t_free left row m =
      perform_aggregation-Serves batch_size t row t_free positive m (
        IsReached-rest batch_size (unresolved s.database.stale_completions)
          (unresolved t.database.stale_completions)
          (λ r n. ((left r n).0, served_if_reached r (left r n).0 (left r n).1)) row m)
