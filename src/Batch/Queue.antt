-- ===== src/Batch/Queue.antt =====
-- `perform_aggregation` as a whole: what it enqueues, and what it leaves.
use openedx_completion_aggre.Prelude.{
  ℕ, ◌<◌, ◌≡◌, refl, ap, ◌∙◌, ◌⊎◌, inl, inr, true, false, Option, none, some, List, [], ◌∷◌, ◌++◌,
  In, elem, length, ltb, arith, ok, Bool-cases, if◌then◌else◌, ◌==◌, raise, value_error,
}
use openedx_completion_aggre.Platform.{BlockKey}
use openedx_completion_aggre.Utils.{Container, bag_of_holding, key_set}
use openedx_completion_aggre.Models.{StaleCompletion}
use openedx_completion_aggre.Batch.{
  Enrollment, enrollment_eq, UpdateTask, Service, blocks_of, is_forced, enrollment_of, keys_of,
  tasks_of, collect, unresolved, enqueue_tasks, perform_aggregation, max_keys_per_task,
}
use openedx_completion_aggre.Batch.Collecting.{Absorbs, enrollment_eq_iff}
use openedx_completion_aggre.Batch.Windows.{IsReached, collect-Covers}

-- The task recalculates the whole course of the enrollment, or the key is one of its keys.
abbrev pub Recalculates : UpdateTask → Option BlockKey → Type 0
Recalculates task key =
    (task.block_keys ≡ []) ⊎ ((k : BlockKey) × (key ≡ some k) × (elem k task.block_keys ≡ true))

pub record Serves (stale : StaleCompletion) (task : UpdateTask) : Type 0 where
  pub enrollment : task.enrollment ≡ enrollment_of stale
  pub recalculates : Recalculates task stale.block_key
  pub forced : stale.force ≡ true → task.force ≡ true

keys_of-Absorbs :
    (key : Option BlockKey) (blocks : Container)
    → Absorbs key blocks
    → (keys_of blocks ≡ []) ⊎ ((k : BlockKey) × (key ≡ some k) × (elem k (keys_of blocks) ≡ true))
unfolding keys_of
keys_of-Absorbs key bag_of_holding h = inl refl
keys_of-Absorbs none (key_set keys) h = elim h [ ]
keys_of-Absorbs (some k) (key_set keys) h =
    elim (Bool-cases (ltb max_keys_per_task (length keys))) [
      | inl big ↦ inl (rw big)
      | inr small ↦ inr (k, refl, rw small (elim h [ inl hit ↦ hit | inr big ↦ ground arith ]))
    ]

tasks_of-In :
    (e : Enrollment) (forced : List Enrollment) (d : List (Enrollment × Container))
    {blocks : Container}
    → blocks_of e d ≡ some blocks
    → In
        (record { enrollment = e; block_keys = keys_of blocks; force = is_forced e forced })
        (tasks_of forced d)
unfolding tasks_of blocks_of
tasks_of-In e forced [] found = cc
tasks_of-In e forced ((f, c) ∷ d) {blocks = blocks} found = elim (Bool-cases (enrollment_eq f e)) [
  | inl same ↦
      let eq : f ≡ e = (enrollment_eq_iff f e).0 same in
      let content : c ≡ blocks = ground arith in inl (cc)
  | inr other ↦ inr (tasks_of-In e forced d {blocks = blocks} (ground arith))
]

module _ {F : Type 0} where
  pub perform_aggregation_runs :
      (batch_size : ℕ) (limit : Option ℕ) (s : Service F) (first : StaleCompletion)
      (rest : List StaleCompletion)
      → s.aggregation_lock ≡ false
      → 0 < batch_size
      → unresolved s.database.stale_completions ≡ first ∷ rest
      → perform_aggregation batch_size limit s ≡ (
        ok tt,
        record s {
          queue =
              s.queue
              ++ tasks_of
                  (collect batch_size limit first rest).forced_updates
                  (collect batch_size limit first rest).stale_blocks;
          aggregation_lock = false;
        },
      )
  unfolding perform_aggregation
  perform_aggregation_runs batch_size limit s first rest free positive e =
      let c = collect batch_size limit first rest in
      let some_size : (batch_size == 0) ≡ false = ground arith in
      ap
        (λ b.
          if b
          then (ok tt, s)
          else enqueue_tasks batch_size limit (unresolved s.database.stale_completions) s)
        free
      ∙ ap (λ rows. enqueue_tasks batch_size limit rows s) e
      ∙ ap
          (λ b. if b then (raise value_error, record s { aggregation_lock = true }) else (
            ok tt,
            record s {
              queue = s.queue ++ tasks_of c.forced_updates c.stale_blocks;
              aggregation_lock = false;
            },
          ))
          some_size

  -- A run that finds the lock free and has no limit, with a positive batch size, enqueues, for each
  -- unresolved stale completion that it reaches, a task of the same enrollment which recalculates
  -- the whole course or has the key of the stale completion among its keys, and which is forced if
  -- the stale completion is. The tasks that were queued stay queued, the lock is free again, and
  -- nothing is raised.
  pub perform_aggregation-Serves :
      (batch_size : ℕ) (s : Service F) (stale : StaleCompletion)
      → s.aggregation_lock ≡ false
      → 0 < batch_size
      → In stale (unresolved s.database.stale_completions)
      → IsReached batch_size (unresolved s.database.stale_completions) stale
      → (s' : Service F) × (tasks : List UpdateTask) × (perform_aggregation batch_size none s
          ≡ (ok tt, s'))
        × (s'.queue ≡ s.queue ++ tasks)
        × (s'.aggregation_lock ≡ false)
        × ((task : UpdateTask) × In task tasks × Serves stale task)
  perform_aggregation-Serves batch_size s stale free positive m reach =
      go (unresolved s.database.stale_completions) refl m reach
    where
      go :
          (rows : List StaleCompletion)
          → unresolved s.database.stale_completions ≡ rows
          → In stale rows
          → IsReached batch_size rows stale
          → (s' : Service F) × (tasks : List UpdateTask) × (perform_aggregation batch_size none s
              ≡ (ok tt, s'))
            × (s'.queue ≡ s.queue ++ tasks)
            × (s'.aggregation_lock ≡ false)
            × ((task : UpdateTask) × In task tasks × Serves stale task)
      go [] e m' r = elim m' [ ]
      go (first ∷ rest) e m' r =
          let c = collect batch_size none first rest in
          let covers = collect-Covers batch_size first rest stale positive m' r in
          (
            record s {
              queue = s.queue ++ tasks_of c.forced_updates c.stale_blocks;
              aggregation_lock = false;
            },
            tasks_of c.forced_updates c.stale_blocks,
            perform_aggregation_runs batch_size none s first rest free positive e,
            refl,
            refl,
            (
              record {
                enrollment = enrollment_of stale;
                block_keys = keys_of covers.blocks;
                force = is_forced (enrollment_of stale) c.forced_updates;
              },
              tasks_of-In (enrollment_of stale) c.forced_updates c.stale_blocks covers.found,
              record {
                enrollment = refl;
                recalculates = keys_of-Absorbs stale.block_key covers.blocks covers.absorbs;
                forced = covers.forced;
              },
            ),
          )
