-- ===== src/Examples/Queues.antt =====
-- The aggregator service on small queues.
use openedx_completion_aggre.Prelude.{
  ℕ, ◌<◌, ◌≤◌, ◌≡◌, refl, sym, ap, ◌∙◌, subst, str_eq, inl, inr, List, [], ◌∷◌, ◌++◌, In, some,
  none, false, ok, arith,
}
use openedx_completion_aggre.Models.{StaleCompletion}
use openedx_completion_aggre.Batch.{
  Enrollment, collect, tasks_of, Service, UpdateTask, enrollment_of, perform_aggregation,
}
use openedx_completion_aggre.Batch.Windows.{IsReached, near_newest}
use openedx_completion_aggre.Batch.Queue.{Serves, perform_aggregation-Serves}
use openedx_completion_aggre.Batch.Runs.{IsRunOf, perform_aggregation-IsRunOf}
use openedx_completion_aggre.Batch.Draining.{perform_aggregation-Drains}
use openedx_completion_aggre.Batch.Oldest.{perform_aggregation-Above}
use openedx_completion_aggre.Signals.{completion_updated_handler}
use openedx_completion_aggre.Signals.Completions.{new_row, completion_updated_handler-Serves}
use openedx_completion_aggre.Examples.{learner, platform, empty_database}

abbrev pub stale_row : ℕ → StaleCompletion
stale_row i = record {
  id = i;
  username = "ana";
  course_key = 9;
  block_key = some 4;
  force = false;
  resolved = false;
  modified = 25;
}

abbrev pub service : List StaleCompletion → Service ℕ
service rows = record {
  database = record empty_database { stale_completions = rows; next_id = 20 };
  queue = [];
  aggregation_lock = false;
  cleanup_lock = false;
}

one_row-IsReached : IsReached 10 (stale_row 5 ∷ []) (stale_row 5)
one_row-IsReached = near_newest λ other m. elim m [
  | inl e ↦ omega (arith, ap (λ (x : StaleCompletion). x.id) e)
  | inr bad ↦ elim bad [ ]
]

perform_aggregation-Serves_example :
    (s' : Service ℕ) × (tasks : List UpdateTask) × (perform_aggregation 10 none
        (service (stale_row 5 ∷ []))
      ≡ (ok tt, s'))
    × (s'.queue ≡ [] ++ tasks)
    × (s'.aggregation_lock ≡ false)
    × ((task : UpdateTask) × In task tasks × Serves (stale_row 5) task)
perform_aggregation-Serves_example =
    perform_aggregation-Serves 10 (service (stale_row 5 ∷ [])) (stale_row 5) refl (omega arith)
      (inl refl) one_row-IsReached

perform_aggregation-IsRunOf_example :
    (tasks : List UpdateTask) × (perform_aggregation 10
        (some 1)
        (service (stale_row 5 ∷ stale_row 6 ∷ []))
      ≡ (
        ok tt,
        record (service (stale_row 5 ∷ stale_row 6 ∷ [])) {
          queue = [] ++ tasks;
          aggregation_lock = false;
        },
      ))
    × IsRunOf (stale_row 5 ∷ stale_row 6 ∷ []) tasks
perform_aggregation-IsRunOf_example =
    perform_aggregation-IsRunOf 10 (some 1) (service (stale_row 5 ∷ stale_row 6 ∷ [])) refl
      (omega arith)

two_rows-le : (row : StaleCompletion) → In row (stale_row 1 ∷ stale_row 11 ∷ []) → 1 ≤ row.id
two_rows-le row m = elim m [
  | inl e ↦ omega (arith, ap (λ (x : StaleCompletion). x.id) e)
  | inr n ↦ elim n [
    | inl e ↦ omega (arith, ap (λ (x : StaleCompletion). x.id) e)
    | inr bad ↦ elim bad [ ]
  ]
]

perform_aggregation-Above_example :
    (s' : Service ℕ) × (tasks : List UpdateTask) × (perform_aggregation 10 none
        (service (stale_row 1 ∷ stale_row 11 ∷ []))
      ≡ (ok tt, s'))
    × (s'.queue ≡ [] ++ tasks)
    × ((task : UpdateTask)
        → In task tasks
        → (row : StaleCompletion) × In row (stale_row 1 ∷ stale_row 11 ∷ [])
          × (1 < row.id)
          × (enrollment_of row ≡ task.enrollment))
perform_aggregation-Above_example =
    perform_aggregation-Above 10 none (service (stale_row 1 ∷ stale_row 11 ∷ [])) (stale_row 1)
      (stale_row 11 ∷ []) (stale_row 1) (stale_row 11) refl (omega arith) refl two_rows-le
      (inl refl) (inr (inl refl)) (omega arith)

completion_updated_handler-Serves_example :
    (s' : Service ℕ) × (tasks : List UpdateTask) × (completion_updated_handler platform learner 9 4
        false
        (service [])
      ≡ (ok tt, s'))
    × (s'.queue ≡ [] ++ tasks)
    × ((task : UpdateTask) × In task tasks
        × Serves (new_row platform learner 9 4 (service []).database) task)
completion_updated_handler-Serves_example =
    completion_updated_handler-Serves platform learner 9 4 (service []) refl refl
      (λ row m. elim m [ ])

-- Row 1 of "ana" waits below row 11 of "bob", and a window holds ten ids.
abbrev row_of_bob : StaleCompletion
row_of_bob = record (stale_row 11) { username = "bob" }

abbrev task_of_bob : UpdateTask
task_of_bob = record { enrollment = enrollment_of row_of_bob; block_keys = 4 ∷ []; force = false }

abbrev spread : Service ℕ
spread = service (stale_row 1 ∷ row_of_bob ∷ [])

spread_run :
    perform_aggregation 10 none spread ≡ (ok tt, record spread { queue = task_of_bob ∷ [] })
unfolding perform_aggregation tasks_of collect
spread_run = refl

ana_waits : (task : UpdateTask) → In task (task_of_bob ∷ []) → Serves (stale_row 1) task → ⊥
ana_waits task m serves = elim m [
  | inl e ↦ other_name (
      ap (λ (t : UpdateTask). str_eq t.enrollment.username "ana") (sym e)
      ∙ ap (λ (x : Enrollment). str_eq x.username "ana") serves.enrollment)
  | inr bad ↦ elim bad [ ]
]
  where
    other_name : str_eq "bob" "ana" ≡ str_eq "ana" "ana" → ⊥
    other_name e = cc

perform_aggregation-Drains_example :
    (t' : Service ℕ) × (tasks : List UpdateTask) × (perform_aggregation 10 none
        (service (stale_row 1 ∷ []))
      ≡ (ok tt, t'))
    × (t'.queue ≡ [] ++ tasks)
    × (t'.aggregation_lock ≡ false)
    × ((task : UpdateTask) × In task tasks × Serves (stale_row 1) task)
perform_aggregation-Drains_example =
    perform_aggregation-Drains 10 spread (record spread { queue = task_of_bob ∷ [] }) refl
      (omega arith) spread_run (service (stale_row 1 ∷ [])) refl
      (λ row m. elim m [
        | inl e ↦ (inl e, λ task n serves. ana_waits task n (subst (λ r. Serves r task) e serves))
        | inr bad ↦ elim bad [ ]
      ])
      (stale_row 1) (inl refl)
