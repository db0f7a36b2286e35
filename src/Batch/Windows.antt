-- ===== src/Batch/Windows.antt =====
-- The id windows of `perform_aggregation`: which stale completions they reach, and which they miss.
use openedx_completion_aggre.Prelude.{
  ℕ, zero, suc, ◌+◌, ◌-◌, ◌≤◌, ◌<◌, min, max, refl, ap, ◌⊎◌, inl, inr, none, List, [], ◌∷◌, In,
  In-select, length, select, ltb, leb, arith, Bool-cases, le→leb,
}
use openedx_completion_aggre.Models.{StaleCompletion}
use openedx_completion_aggre.Batch.{
  Collected, collect_all, in_window, reached, scan, min_id, max_id, nothing_collected, collect,
}
use openedx_completion_aggre.Batch.Collecting.{Covers, Covers-collect_all, Covers-collect_all-In}

pub min_id-le : (i : ℕ) (rows : List StaleCompletion) → min_id i rows ≤ i
unfolding min_id
min_id-le i [] = omega arith
min_id-le i (r ∷ rows) = omega (arith, min_id-le (min i r.id) rows)

pub min_id-le_In :
    (i : ℕ) (rows : List StaleCompletion) (r : StaleCompletion) → In r rows → min_id i rows ≤ r.id
unfolding min_id
min_id-le_In i [] r m = elim m [ ]
min_id-le_In i (x ∷ rows) r (inl e) =
    omega (arith, min_id-le (min i x.id) rows, ap (λ (y : StaleCompletion). y.id) e)
min_id-le_In i (x ∷ rows) r (inr m) = min_id-le_In (min i x.id) rows r m

pub le-max_id : (i : ℕ) (rows : List StaleCompletion) → i ≤ max_id i rows
unfolding max_id
le-max_id i [] = omega arith
le-max_id i (r ∷ rows) = omega (arith, le-max_id (max i r.id) rows)

pub le-max_id-In :
    (i : ℕ) (rows : List StaleCompletion) (r : StaleCompletion) → In r rows → r.id ≤ max_id i rows
unfolding max_id
le-max_id-In i [] r m = elim m [ ]
le-max_id-In i (x ∷ rows) r (inl e) =
    omega (arith, le-max_id (max i x.id) rows, ap (λ (y : StaleCompletion). y.id) e)
le-max_id-In i (x ∷ rows) r (inr m) = le-max_id-In (max i x.id) rows r m

max_id-lt :
    (i b : ℕ) (rows : List StaleCompletion)
    → i < b
    → ((r : StaleCompletion) → In r rows → r.id < b)
    → max_id i rows < b
unfolding max_id
max_id-lt i b [] h k = h
max_id-lt i b (r ∷ rows) h k =
    max_id-lt (max i r.id) b rows (omega (arith, k r (inl refl))) (λ x m. k x (inr m))

module _ (batch_size stop : ℕ) (rows : List StaleCompletion) (positive : 0 < batch_size)
    (stale : StaleCompletion) where
  scan-keeps :
      (rounds idx : ℕ) (c : Collected)
      → Covers c stale
      → Covers (scan batch_size none stop rows rounds idx c) stale
  unfolding scan reached
  scan-keeps zero idx c h = h
  scan-keeps (suc rounds) idx c h =
      let rows' = select (in_window batch_size idx) rows in
      let now : Covers (collect_all rows' (record c { enqueued = c.enqueued + length rows' }))
          stale =
        Covers-collect_all rows' stale _
          (record { blocks = h.blocks; found = h.found; absorbs = h.absorbs; forced = h.forced }) in
      elim (Bool-cases (leb (stop + batch_size) idx)) [
        | inl more ↦ rw more (scan-keeps rounds (idx - batch_size) _ now)
        | inr done ↦ rw done now
      ]

  pub scan-Covers :
      (rounds idx : ℕ) (c : Collected)
      → In stale rows
      → idx < rounds
      → stale.id ≤ idx
      → (stop ≤ stale.id) ⊎ (idx < stale.id + batch_size)
      → Covers (scan batch_size none stop rows rounds idx c) stale
  unfolding scan reached
  scan-Covers zero idx c m h le reach = absurd (omega arith)
  scan-Covers (suc rounds) idx c m h le reach =
      elim (Bool-cases (ltb idx (stale.id + batch_size))) [
        | inl inside ↦
            let rows' = select (in_window batch_size idx) rows in
            let now : Covers (collect_all rows' (record c { enqueued = c.enqueued + length rows' }))
                stale =
              Covers-collect_all-In rows' stale _
                (In-select (in_window batch_size idx) stale rows m (ground arith)) in
            elim (Bool-cases (leb (stop + batch_size) idx)) [
              | inl more ↦ rw more (scan-keeps rounds (idx - batch_size) _ now)
              | inr done ↦ rw done now
            ]
        | inr outside ↦
            let far : stale.id + batch_size ≤ idx = ground arith in
            let low : stop ≤ stale.id = elim reach [ inl p ↦ p | inr q ↦ absurd (omega arith) ] in
            rw (le→leb (stop + batch_size) idx (omega arith))
              (scan-Covers rounds (idx - batch_size) _ m (omega arith) (omega arith) (inl low))
      ]

-- The rows that a run with no limit reaches: the newest row is less than `batch_size` above it, or
-- some row is at least `batch_size` below it.
pub data IsReached (batch_size : ℕ) (rows : List StaleCompletion) (stale : StaleCompletion)
    : Type 0 where
  near_newest :
      ((other : StaleCompletion) → In other rows → other.id < stale.id + batch_size)
      → IsReached batch_size rows stale
  above_oldest :
      (oldest : StaleCompletion)
      → In oldest rows
      → oldest.id + batch_size ≤ stale.id
      → IsReached batch_size rows stale

pub collect-Covers :
    (batch_size : ℕ) (first : StaleCompletion) (rest : List StaleCompletion)
    (stale : StaleCompletion)
    → 0 < batch_size
    → In stale (first ∷ rest)
    → IsReached batch_size (first ∷ rest) stale
    → Covers (collect batch_size none first rest) stale
unfolding collect
collect-Covers batch_size first rest stale positive m reach =
    let rows = first ∷ rest in
    let low = min_id first.id rest in
    let high = max_id first.id rest in
    scan-Covers batch_size (min (low + batch_size) high) rows positive stale (suc high) high
      nothing_collected m (omega arith) (le_high first rest stale m)
      (elim reach [
        | near_newest near ↦ inr (
            max_id-lt first.id (stale.id + batch_size) rest (near first (inl refl))
              (λ r n. near r (inr n)))
        | above_oldest oldest n far ↦ inl (omega (arith, low_le first rest oldest n))
      ])
  where
    le_high :
        (f : StaleCompletion) (rs : List StaleCompletion) (r : StaleCompletion)
        → In r (f ∷ rs)
        → r.id ≤ max_id f.id rs
    le_high f rs r (inl e) = omega (arith, le-max_id f.id rs, ap (λ (y : StaleCompletion). y.id) e)
    le_high f rs r (inr n) = le-max_id-In f.id rs r n

    low_le :
        (f : StaleCompletion) (rs : List StaleCompletion) (r : StaleCompletion)
        → In r (f ∷ rs)
        → min_id f.id rs ≤ r.id
    low_le f rs r (inl e) = omega (arith, min_id-le f.id rs, ap (λ (y : StaleCompletion). y.id) e)
    low_le f rs r (inr n) = min_id-le_In f.id rs r n
