-- ===== src/Batch/Oldest.antt =====
-- The id windows of `perform_aggregation` (batch.py) and the oldest rows.
use openedx_completion_aggre.Prelude.{
  ℕ, ◌+◌, ◌≤◌, ◌<◌, min, ◌≡◌, refl, ap, ◌∙◌, inl, inr, true, false, Option, List, [], ◌∷◌, ◌++◌, In,
  arith, ok,
}
use openedx_completion_aggre.Models.{StaleCompletion}
use openedx_completion_aggre.Batch.{
  UpdateTask, Service, enrollment_of, in_window, tasks_of, min_id, max_id, collect, unresolved,
  perform_aggregation,
}
use openedx_completion_aggre.Batch.Windows.{min_id-le_In, min_id-le, le-max_id-In, le-max_id}
use openedx_completion_aggre.Batch.Queue.{perform_aggregation_runs}
use openedx_completion_aggre.Batch.Sources.{IsTraced}
use openedx_completion_aggre.Batch.Runs.{tasks_of-source, collect-IsTraced}

in_window-lt :
    (low batch_size idx : ℕ) (row : StaleCompletion)
    → in_window batch_size idx row ≡ true
    → low + batch_size ≤ idx
    → low < row.id
in_window-lt low batch_size idx row h p = ground arith

le-min_id :
    (b i : ℕ) (rows : List StaleCompletion)
    → b ≤ i
    → ((row : StaleCompletion) → In row rows → b ≤ row.id)
    → b ≤ min_id i rows
unfolding min_id
le-min_id b i [] h k = h
le-min_id b i (r ∷ rows) h k =
    le-min_id b (min i r.id) rows (omega (arith, k r (inl refl))) (λ x m. k x (inr m))

module _ (batch_size : ℕ) (limit : Option ℕ) (first : StaleCompletion) (rest : List StaleCompletion)
    (oldest newest : StaleCompletion)
    (least : (row : StaleCompletion) → In row (first ∷ rest) → oldest.id ≤ row.id)
    (m : In oldest (first ∷ rest)) (n : In newest (first ∷ rest))
    (far : oldest.id + batch_size ≤ newest.id) where
  min_id-oldest : min_id first.id rest ≡ oldest.id
  min_id-oldest =
      let low =
        le-min_id oldest.id first.id rest (least first (inl refl)) (λ r k. least r (inr k)) in
      elim m [
        | inl e ↦ omega (arith, min_id-le first.id rest, ap (λ (y : StaleCompletion). y.id) e)
        | inr k ↦ omega (arith, min_id-le_In first.id rest oldest k)
      ]

  newest-le-max_id : newest.id ≤ max_id first.id rest
  newest-le-max_id = elim n [
    | inl e ↦ omega (arith, le-max_id first.id rest, ap (λ (y : StaleCompletion). y.id) e)
    | inr k ↦ le-max_id-In first.id rest newest k
  ]

  collect-IsTraced_above :
      IsTraced
        (λ row. In row (first ∷ rest) × (oldest.id < row.id))
        (collect batch_size limit first rest)
  collect-IsTraced_above =
      collect-IsTraced (λ row. In row (first ∷ rest) × (oldest.id < row.id)) batch_size limit first
        rest
        (λ idx row h k inside. (
          k,
          in_window-lt oldest.id batch_size idx row inside
              (omega (arith, h, min_id-oldest, newest-le-max_id)),
        ))

-- Where the ids of the unresolved rows spread over at least `batch_size`, which is positive, and the
-- lock is free, a run enqueues no task for the oldest row, whatever the limit: each task that it
-- enqueues is for the enrollment of an unresolved row of the table that has a greater id, so that
-- where no such row is of the oldest row's enrollment, there is no task for that enrollment.
pub perform_aggregation-Above :
    {F : Type 0} (batch_size : ℕ) (limit : Option ℕ) (s : Service F) (first : StaleCompletion)
    (rest : List StaleCompletion) (oldest newest : StaleCompletion)
    → s.aggregation_lock ≡ false
    → 0 < batch_size
    → unresolved s.database.stale_completions ≡ first ∷ rest
    → ((row : StaleCompletion) → In row (first ∷ rest) → oldest.id ≤ row.id)
    → In oldest (first ∷ rest)
    → In newest (first ∷ rest)
    → oldest.id + batch_size ≤ newest.id
    → (s' : Service F) × (tasks : List UpdateTask) × (perform_aggregation batch_size limit s
        ≡ (ok tt, s'))
      × (s'.queue ≡ s.queue ++ tasks)
      × ((task : UpdateTask)
          → In task tasks
          → (row : StaleCompletion) × In row (first ∷ rest)
            × (oldest.id < row.id)
            × (enrollment_of row ≡ task.enrollment))
perform_aggregation-Above batch_size limit s first rest oldest newest free positive e least m n
      far =
    let c = collect batch_size limit first rest in
    (
      record s {
        queue = s.queue ++ tasks_of c.forced_updates c.stale_blocks;
        aggregation_lock = false;
      },
      tasks_of c.forced_updates c.stale_blocks,
      perform_aggregation_runs batch_size limit s first rest free positive e,
      refl,
      λ task k.
          let (entry, i, same) = tasks_of-source c.forced_updates c.stale_blocks task k in
          let (row, (waits, lt), eq) =
            (collect-IsTraced_above batch_size limit first rest oldest newest least m n far).sourced
              entry i in
          (row, waits, lt, eq ∙ same),
    )
