-- ===== src/Batch/Sources.antt =====
-- Where the entries of `stale_blocks` in `perform_aggregation` come from.
use openedx_completion_aggre.Prelude.{
  ℕ, zero, suc, ◌+◌, ◌-◌, ◌≤◌, ◌≡◌, refl, sym, ap, ◌∙◌, subst, inl, inr, Bool, true, false, Option,
  none, List, [], ◌∷◌, In, In-select_source, length, select, leb, leb→le, arith, Bool-cases,
  if◌then◌else◌,
}
use openedx_completion_aggre.Utils.{Container}
use openedx_completion_aggre.Models.{StaleCompletion}
use openedx_completion_aggre.Batch.{
  Enrollment, enrollment_eq, Collected, blocks_of, put_blocks, enrollment_of, note_block,
  collect_one, collect_all, in_window, reached, scan,
}
use openedx_completion_aggre.Batch.Collecting.{enrollment_eq_iff, blocks_of-put_ne}

-- No enrollment has two entries.
abbrev pub IsDistinct : List (Enrollment × Container) → Type 0
IsDistinct [] = Unit {0}
IsDistinct ((e, c) ∷ d) = (blocks_of e d ≡ none) × IsDistinct d

put_blocks-IsDistinct :
    (e : Enrollment) (change : Container → Container) (d : List (Enrollment × Container))
    → IsDistinct d
    → IsDistinct (put_blocks e change d)
unfolding put_blocks blocks_of
put_blocks-IsDistinct e change [] h = (refl, tt)
put_blocks-IsDistinct e change ((f, c) ∷ d) (fresh, h) = elim (Bool-cases (enrollment_eq f e)) [
  | inl same ↦ rw same (fresh, h)
  | inr other ↦ rw other (
    blocks_of-put_ne e f change d (other_way f other) ∙ fresh,
    put_blocks-IsDistinct e change d h,
  )
]
  where
    other_way : (f : Enrollment) → enrollment_eq f e ≡ false → enrollment_eq e f ≡ false
    other_way f h = ground (arith, enrollment_eq_iff f e, enrollment_eq_iff e f)

module _ (P : StaleCompletion → Type 0) where
  -- The enrollment of each entry is that of a row with the property.
  abbrev pub IsSourced : List (Enrollment × Container) → Type 0
  IsSourced d =
      (entry : Enrollment × Container)
      → In entry d
      → (row : StaleCompletion) × P row × (enrollment_of row ≡ entry.0)

  put_blocks-IsSourced :
      (row : StaleCompletion) (change : Container → Container) (d : List (Enrollment × Container))
      → P row
      → IsSourced d
      → IsSourced (put_blocks (enrollment_of row) change d)
  unfolding put_blocks
  put_blocks-IsSourced row change [] h old entry (inl e) =
      (row, h, ap (λ (x : Enrollment × Container). x.0) (sym e))
  put_blocks-IsSourced row change [] h old entry (inr m) = elim m [ ]
  put_blocks-IsSourced row change ((f, c) ∷ d) h old entry m =
      elim (Bool-cases (enrollment_eq f (enrollment_of row))) [
        | inl same ↦ elim (subst (In entry) (ap put same) m) [
          | inl e ↦
              let (r, p, eq) = old (f, c) (inl refl) in
              (r, p, eq ∙ ap (λ (x : Enrollment × Container). x.0) (sym e))
          | inr n ↦ old entry (inr n)
        ]
        | inr other ↦ elim (subst (In entry) (ap put other) m) [
          | inl e ↦ old entry (inl e)
          | inr n ↦ put_blocks-IsSourced row change d h (λ x k. old x (inr k)) entry n
        ]
      ]
    where
      put : Bool → List (Enrollment × Container)
      put b = if b then (f, change c) ∷ d else (f, c) ∷ put_blocks (enrollment_of row) change d

  -- What holds of the entries at each point of the loops.
  pub record IsTraced (c : Collected) : Type 0 where
    pub distinct : IsDistinct c.stale_blocks
    pub sourced : IsSourced c.stale_blocks

  collect_all-IsTraced :
      (rows : List StaleCompletion) (c : Collected)
      → ((row : StaleCompletion) → In row rows → P row)
      → IsTraced c
      → IsTraced (collect_all rows c)
  unfolding collect_all collect_one
  collect_all-IsTraced [] c h old = old
  collect_all-IsTraced (row ∷ rows) c h old =
      collect_all-IsTraced rows (collect_one row c) (λ r m. h r (inr m))
        (record {
          distinct =
              put_blocks-IsDistinct (enrollment_of row) (note_block row.block_key) c.stale_blocks
                old.distinct;
          sourced =
              put_blocks-IsSourced row (note_block row.block_key) c.stale_blocks (h row (inl refl))
                old.sourced;
        })

  module _ (batch_size stop : ℕ) (limit : Option ℕ) (rows : List StaleCompletion)
      (reads : (idx : ℕ) (row : StaleCompletion)
        → stop ≤ idx
        → In row rows
        → in_window batch_size idx row ≡ true
        → P row) where
    pub scan-IsTraced :
        (rounds idx : ℕ) (c : Collected)
        → stop ≤ idx
        → IsTraced c
        → IsTraced (scan batch_size limit stop rows rounds idx c)
    unfolding scan
    scan-IsTraced zero idx c h old = old
    scan-IsTraced (suc rounds) idx c h old =
        let rows' = select (in_window batch_size idx) rows in
        let c' = collect_all rows' (record c { enqueued = c.enqueued + length rows' }) in
        let now : IsTraced c' =
          collect_all-IsTraced rows' (record c { enqueued = c.enqueued + length rows' })
            (λ row m.
              let (k, inside) = In-select_source (in_window batch_size idx) row rows m in
              reads idx row h k inside)
            (record { distinct = old.distinct; sourced = old.sourced }) in
        elim (Bool-cases (reached limit c.enqueued)) [
          | inl enough ↦ rw enough old
          | inr on ↦ elim (Bool-cases (leb (stop + batch_size) idx)) [
            | inl more ↦
                rw (on, more)
                  (scan-IsTraced rounds (idx - batch_size) c' (omega (arith, leb→le _ _ more)) now)
            | inr done ↦ rw (on, done) now
          ]
        ]
