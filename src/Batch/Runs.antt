-- ===== src/Batch/Runs.antt =====
-- What one run of `perform_aggregation` queues, for any limit: how many tasks, for whom, how large.
use openedx_completion_aggre.Prelude.{
  ℕ, suc, Bool, ◌+◌, ◌≤◌, ◌<◌, min, ◌≡◌, refl, sym, ap, ◌∙◌, inl, inr, true, false, Option, none,
  some, if◌then◌else◌, List, [], ◌∷◌, ◌++◌, append_nil, In, All, length, ltb, ◌==◌, arith, ok,
  Bool-cases, Result, raise, value_error,
}
use openedx_completion_aggre.Utils.{Container, bag_of_holding, key_set}
use openedx_completion_aggre.Models.{StaleCompletion}
use openedx_completion_aggre.Batch.{
  Enrollment, enrollment_eq, enrollment_of, UpdateTask, Service, blocks_of, keys_of, tasks_of,
  max_keys_per_task, collect, min_id, max_id, unresolved, enqueue_tasks, perform_aggregation,
  nothing_collected, in_window,
}
use openedx_completion_aggre.Batch.Queue.{perform_aggregation_runs}
use openedx_completion_aggre.Batch.Sources.{IsDistinct, IsTraced, scan-IsTraced}

-- The task has at most sixteen keys.
abbrev pub IsSmall : UpdateTask → Type 0
IsSmall task = length task.block_keys ≤ max_keys_per_task

-- The first task for the enrollment, if there is one.
abbrev task_of : Enrollment → List UpdateTask → Option UpdateTask
task_of e [] = none
task_of e (task ∷ rest) = if enrollment_eq task.enrollment e then some task else task_of e rest

-- No two tasks have the same enrollment.
abbrev pub HaveDistinctEnrollments : List UpdateTask → Type 0
HaveDistinctEnrollments [] = Unit {0}
HaveDistinctEnrollments (task ∷ rest) =
    (task_of task.enrollment rest ≡ none) × HaveDistinctEnrollments rest

-- What a run queues for the rows that are unresolved.
pub record IsRunOf (rows : List StaleCompletion) (tasks : List UpdateTask) : Type 0 where
  pub small : All IsSmall tasks
  pub distinct : HaveDistinctEnrollments tasks
  pub sourced :
      (task : UpdateTask)
      → In task tasks
      → (row : StaleCompletion) × In row rows × (enrollment_of row ≡ task.enrollment)

keys_of-length : (blocks : Container) → length (keys_of blocks) ≤ max_keys_per_task
unfolding keys_of
keys_of-length bag_of_holding = omega arith
keys_of-length (key_set keys) = elim (Bool-cases (ltb max_keys_per_task (length keys))) [
  | inl big ↦ rw big (omega arith)
  | inr fits ↦ rw fits (ground arith)
]

module _ (forced : List Enrollment) where
  tasks_of-IsSmall : (d : List (Enrollment × Container)) → All IsSmall (tasks_of forced d)
  unfolding tasks_of
  tasks_of-IsSmall [] = tt
  tasks_of-IsSmall ((e, c) ∷ d) = (keys_of-length c, tasks_of-IsSmall d)

  task_of-tasks_of :
      (e : Enrollment) (d : List (Enrollment × Container))
      → blocks_of e d ≡ none
      → task_of e (tasks_of forced d) ≡ none
  unfolding tasks_of blocks_of
  task_of-tasks_of e [] h = refl
  task_of-tasks_of e ((f, c) ∷ d) h = elim (Bool-cases (enrollment_eq f e)) [
    | inl same ↦ ground arith
    | inr other ↦ rw other (task_of-tasks_of e d (ground arith))
  ]

  tasks_of-distinct :
      (d : List (Enrollment × Container))
      → IsDistinct d
      → HaveDistinctEnrollments (tasks_of forced d)
  unfolding tasks_of
  tasks_of-distinct [] h = tt
  tasks_of-distinct ((e, c) ∷ d) (fresh, h) = (task_of-tasks_of e d fresh, tasks_of-distinct d h)

  pub tasks_of-source :
      (d : List (Enrollment × Container)) (task : UpdateTask)
      → In task (tasks_of forced d)
      → (entry : Enrollment × Container) × In entry d × (entry.0 ≡ task.enrollment)
  unfolding tasks_of
  tasks_of-source [] task m = elim m [ ]
  tasks_of-source ((e, c) ∷ d) task (inl h) =
      ((e, c), inl refl, ap (λ (t : UpdateTask). t.enrollment) (sym h))
  tasks_of-source ((e, c) ∷ d) task (inr m) =
      let (entry, n, h) = tasks_of-source d task m in (entry, inr n, h)

module _ (P : StaleCompletion → Type 0) (batch_size : ℕ) (limit : Option ℕ)
    (first : StaleCompletion) (rest : List StaleCompletion) where
  abbrev stop_of : ℕ
  stop_of = min (min_id first.id rest + batch_size) (max_id first.id rest)

  -- Each entry comes from a row that lies in some window.
  pub collect-IsTraced :
      ((idx : ℕ) (row : StaleCompletion)
        → stop_of ≤ idx
        → In row (first ∷ rest)
        → in_window batch_size idx row ≡ true
        → P row)
      → IsTraced P (collect batch_size limit first rest)
  unfolding collect
  collect-IsTraced reads =
      scan-IsTraced P batch_size stop_of limit (first ∷ rest) reads (suc (max_id first.id rest))
        (max_id first.id rest) nothing_collected (omega arith)
        (record { distinct = tt; sourced = λ entry m. elim m [ ] })

module _ {F : Type 0} (batch_size : ℕ) (limit : Option ℕ) (s : Service F) where
  enqueue_tasks-database :
      (rows : List StaleCompletion)
      → (enqueue_tasks batch_size limit rows s).1.database ≡ s.database
  unfolding enqueue_tasks
  enqueue_tasks-database [] = refl
  enqueue_tasks-database (row ∷ rows) = elim (Bool-cases (batch_size == 0)) [
    | inl none_fit ↦ rw none_fit
    | inr some_size ↦ rw some_size
  ]

  pub perform_aggregation-database :
      (perform_aggregation batch_size limit s).1.database ≡ s.database
  unfolding perform_aggregation
  perform_aggregation-database =
      let rows = unresolved s.database.stale_completions in
      elim (Bool-cases s.aggregation_lock) [
        | inl taken ↦
            ap (λ b. (if b then (ok tt, s) else enqueue_tasks batch_size limit rows s).1.database)
              taken
        | inr free ↦
            ap (λ b. (if b then (ok tt, s) else enqueue_tasks batch_size limit rows s).1.database)
              free
            ∙ enqueue_tasks-database rows
      ]

  pub perform_aggregation_idle :
      s.aggregation_lock ≡ false
      → unresolved s.database.stale_completions ≡ []
      → perform_aggregation batch_size limit s
        ≡ (ok tt, record s { queue = s.queue ++ []; aggregation_lock = false })
  unfolding perform_aggregation enqueue_tasks
  perform_aggregation_idle free e =
      ap
        (λ b.
          if b
          then (ok tt, s)
          else enqueue_tasks batch_size limit (unresolved s.database.stale_completions) s)
        free
      ∙ ap (λ rows. enqueue_tasks batch_size limit rows s) e
      ∙ ap (λ q. (ok tt, record s { queue = q; aggregation_lock = false }))
          (sym (append_nil s.queue))

  -- A run with the lock free and a positive batch size raises nothing, leaves the lock free, and
  -- whatever the limit, changes nothing but the queue, to which it adds: at most one task for each
  -- enrollment, each with at most sixteen keys and for the enrollment of an unresolved row.
  pub perform_aggregation_locked :
      s.aggregation_lock ≡ true → perform_aggregation batch_size limit s ≡ (ok tt, s)
  unfolding perform_aggregation
  perform_aggregation_locked taken =
      ap
        (λ b.
          if b
          then (ok tt, s)
          else enqueue_tasks batch_size limit (unresolved s.database.stale_completions) s)
        taken

  pub perform_aggregation-IsRunOf :
      s.aggregation_lock ≡ false
      → 0 < batch_size
      → (tasks : List UpdateTask) × (perform_aggregation batch_size limit s
          ≡ (ok tt, record s { queue = s.queue ++ tasks; aggregation_lock = false }))
        × IsRunOf (unresolved s.database.stale_completions) tasks
  perform_aggregation-IsRunOf free positive = go (unresolved s.database.stale_completions) refl
    where
      go :
          (rows : List StaleCompletion)
          → unresolved s.database.stale_completions ≡ rows
          → (tasks : List UpdateTask) × (perform_aggregation batch_size limit s
              ≡ (ok tt, record s { queue = s.queue ++ tasks; aggregation_lock = false }))
            × IsRunOf rows tasks
      go [] e = (
        [],
        perform_aggregation_idle free e,
        record { small = tt; distinct = tt; sourced = λ task m. elim m [ ] },
      )
      go (first ∷ rest) e =
          let c = collect batch_size limit first rest in
          let traced =
            collect-IsTraced (λ row. In row (first ∷ rest)) batch_size limit first rest
              (λ idx row h m inside. m) in
          (
            tasks_of c.forced_updates c.stale_blocks,
            perform_aggregation_runs batch_size limit s first rest free positive e,
            record {
              small = tasks_of-IsSmall c.forced_updates c.stale_blocks;
              distinct = tasks_of-distinct c.forced_updates c.stale_blocks traced.distinct;
              sourced = λ task m.
                  let (entry, n, same) = tasks_of-source c.forced_updates c.stale_blocks task m in
                  let (row, k, eq) = traced.sourced entry n in (row, k, eq ∙ same);
            },
          )

sizeless :
    {F : Type 0} (limit : Option ℕ) (rows : List StaleCompletion) (s : Service F)
    → (r : Result (Unit {0})) × (lock : Bool) × (enqueue_tasks 0 limit rows s
        ≡ (r, record s { aggregation_lock = lock }))
unfolding enqueue_tasks
sizeless limit [] s = (ok tt, false, refl)
sizeless limit (first ∷ rest) s = (raise value_error, true, refl)

-- A run with batch size 0 queues nothing, and may keep the lock.
pub perform_aggregation_sizeless :
    {F : Type 0} (limit : Option ℕ) (s : Service F)
    → s.aggregation_lock ≡ false
    → (r : Result (Unit {0})) × (lock : Bool) × (perform_aggregation 0 limit s
        ≡ (r, record s { aggregation_lock = lock }))
unfolding perform_aggregation
perform_aggregation_sizeless limit s free =
    let (r, lock, e) = sizeless limit (unresolved s.database.stale_completions) s in
    (
      r,
      lock,
      ap
            (λ b.
              if b
              then (ok tt, s)
              else enqueue_tasks 0 limit (unresolved s.database.stale_completions) s)
            free
          ∙ e,
    )
