-- ===== src/System/Limits.antt =====
-- The limit of `perform_aggregation` (batch.py), in states that the aggregator reaches.
use openedx_completion_aggre.Prelude.{
  ℕ, zero, suc, ◌+◌, ◌-◌, ◌≤◌, ◌<◌, min, max, ◌≡◌, refl, sym, ap, ◌∙◌, append_nil, subst, inl, inr,
  true, false, not, some, List, [], ◌∷◌, ◌++◌, length, select, leb, Bool-cases, List-cases, ok,
  arith,
}
use openedx_completion_aggre.Float.{Float}
use openedx_completion_aggre.Platform.{Platform}
use openedx_completion_aggre.Utils.{Container}
use openedx_completion_aggre.Models.{StaleCompletion}
use openedx_completion_aggre.Batch.{
  Enrollment, enrollment_eq, UpdateTask, Service, Collected, put_blocks, enrollment_of, note_block,
  collect_one, collect_all, in_window, reached, scan, collect, tasks_of, unresolved,
  perform_aggregation, nothing_collected, min_id, max_id,
}
use openedx_completion_aggre.Batch.Queue.{perform_aggregation_runs}
use openedx_completion_aggre.Batch.Runs.{perform_aggregation_idle, perform_aggregation_locked}
use openedx_completion_aggre.System.{Reach}
use openedx_completion_aggre.System.Numbering.{Ascending, Ascending-select}
use openedx_completion_aggre.System.Steps.{Reach-Inv}

-- A window holds no more rows than ids.
in_window-length :
    (batch_size idx low next : ℕ) (rows : List StaleCompletion)
    → Ascending low rows next
    → length (select (in_window batch_size idx) rows) ≤ suc idx - max low (suc idx - batch_size)
in_window-length batch_size idx low next [] h = omega arith
in_window-length batch_size idx low next (row ∷ rows) (h, more) =
    let rest = in_window-length batch_size idx (suc row.id) next rows more in
    elim (Bool-cases (in_window batch_size idx row)) [
      | inl inside ↦
          let (low_enough, high_enough) = bounds inside in
          rw inside (omega (arith, rest, low_enough, high_enough, h))
      | inr outside ↦ rw outside (omega (arith, rest, h))
    ]
  where
    bounds : in_window batch_size idx row ≡ true → (idx < row.id + batch_size) × (row.id ≤ idx)
    bounds e = (ground arith, ground arith)

put_blocks-length :
    (e : Enrollment) (change : Container → Container) (d : List (Enrollment × Container))
    → length (put_blocks e change d) ≤ suc (length d)
unfolding put_blocks
put_blocks-length e change [] = omega arith
put_blocks-length e change ((f, c) ∷ d) = elim (Bool-cases (enrollment_eq f e)) [
  | inl same ↦ rw same (omega arith)
  | inr other ↦ rw other (omega (arith, put_blocks-length e change d))
]

collect_all-length :
    (rows : List StaleCompletion) (c : Collected)
    → length (collect_all rows c).stale_blocks ≤ length c.stale_blocks + length rows
unfolding collect_all collect_one
collect_all-length [] c = omega arith
collect_all-length (row ∷ rows) c = omega (
  arith,
  collect_all-length rows (collect_one row c),
  put_blocks-length (enrollment_of row) (note_block row.block_key) c.stale_blocks,
)

collect_all-enqueued :
    (rows : List StaleCompletion) (c : Collected) → (collect_all rows c).enqueued ≡ c.enqueued
unfolding collect_all collect_one
collect_all-enqueued [] c = refl
collect_all-enqueued (row ∷ rows) c = collect_all-enqueued rows (collect_one row c)

module _ (batch_size limit stop next : ℕ) (rows : List StaleCompletion)
    (ids : Ascending 0 rows next) where
  -- No more entries than rows that were read, of which there are few.
  abbrev IsLimited : Collected → Type 0
  IsLimited c = (length c.stale_blocks ≤ c.enqueued) × (c.enqueued < limit + batch_size)

  scan-IsLimited :
      (rounds idx : ℕ) (c : Collected)
      → IsLimited c
      → IsLimited (scan batch_size (some limit) stop rows rounds idx c)
  unfolding scan reached
  scan-IsLimited zero idx c h = h
  scan-IsLimited (suc rounds) idx c (few, small) =
      let rows' = select (in_window batch_size idx) rows in
      let c₀ = record c { enqueued = c.enqueued + length rows' } in
      let c' = collect_all rows' c₀ in
      elim (Bool-cases (leb limit c.enqueued)) [
        | inl enough ↦ rw enough (few, small)
        | inr on ↦
            let below : c.enqueued < limit = ground arith in
            let size = in_window-length batch_size idx 0 next rows ids in
            let now : IsLimited c' = (
              omega (arith, collect_all-length rows' c₀, collect_all-enqueued rows' c₀, few),
              omega (arith, collect_all-enqueued rows' c₀, size, below),
            ) in
            elim (Bool-cases (leb (stop + batch_size) idx)) [
              | inl more ↦ rw (on, more) (scan-IsLimited rounds (idx - batch_size) c' now)
              | inr done ↦ rw (on, done) now
            ]
      ]

length-tasks_of :
    (forced : List Enrollment) (d : List (Enrollment × Container))
    → length (tasks_of forced d) ≡ length d
unfolding tasks_of
length-tasks_of forced [] = refl
length-tasks_of forced ((e, c) ∷ d) = ap suc (length-tasks_of forced d)

module _ {F : Type 0} ⦃fl : Float F⦄ (platform : Platform) {ticks : ℕ} (s : Service F)
    (reach : Reach platform ticks s) (batch_size limit : ℕ) (positive : 0 < batch_size) where
  collect-length :
      (first : StaleCompletion) (rest : List StaleCompletion)
      → unresolved s.database.stale_completions ≡ first ∷ rest
      → length (collect batch_size (some limit) first rest).stale_blocks < limit + batch_size
  unfolding collect
  collect-length first rest e =
      let (_, ids) = (Reach-Inv platform reach).sound in
      let next = s.database.next_id in
      let ascending : Ascending 0 (first ∷ rest) next =
        subst (λ rows. Ascending 0 rows next) e
          (Ascending-select 0 next (λ stale. not stale.resolved) s.database.stale_completions
            ids) in
      let high = max_id first.id rest in
      let (few, small) =
        scan-IsLimited batch_size limit (min (min_id first.id rest + batch_size) high) next
          (first ∷ rest) ascending (suc high) high nothing_collected
          (omega arith, omega (arith, positive)) in
      omega (arith, few, small)

  -- A run with the lock free.
  free_run :
      s.aggregation_lock ≡ false
      → (tasks : List UpdateTask) × (perform_aggregation batch_size (some limit) s
          ≡ (ok tt, record s { queue = s.queue ++ tasks; aggregation_lock = false }))
        × (length tasks < limit + batch_size)
  free_run free = elim (List-cases (unresolved s.database.stale_completions)) [
    | inl e ↦
        ([], perform_aggregation_idle batch_size (some limit) s free e, omega (arith, positive))
    | inr (first, rest, e) ↦
        let c = collect batch_size (some limit) first rest in
        (
          tasks_of c.forced_updates c.stale_blocks,
          perform_aggregation_runs batch_size (some limit) s first rest free positive e,
          omega
              (arith, length-tasks_of c.forced_updates c.stale_blocks, collect-length first rest e),
        )
  ]

  -- In every state that the aggregator reaches from empty tables, also through runs that fail, a run
  -- with a limit and a positive batch size, where the queue takes all its tasks, returns, changes
  -- nothing but the queue, and queues fewer tasks than the limit and the batch size together.
  pub perform_aggregation-length :
      (tasks : List UpdateTask) × (perform_aggregation batch_size (some limit) s
        ≡ (ok tt, record s { queue = s.queue ++ tasks }))
      × (length tasks < limit + batch_size)
  perform_aggregation-length = elim (Bool-cases s.aggregation_lock) [
    | inl taken ↦ (
      [],
      perform_aggregation_locked batch_size (some limit) s taken
          ∙ ap (λ q. (ok tt, record s { queue = q })) (sym (append_nil s.queue)),
      omega (arith, positive),
    )
    | inr free ↦
        let (tasks, run, few) = free_run free in
        (
          tasks,
          run
              ∙ ap (λ b. (ok tt, record s { queue = s.queue ++ tasks; aggregation_lock = b }))
                  (sym free),
          few,
        )
  ]
