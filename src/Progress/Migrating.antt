-- ===== src/Progress/Migrating.antt =====
-- When the loop of `_migrate_batch` ends.
use openedx_completion_aggre.Prelude.{
  ℕ, zero, suc, ◌≤◌, ◌<◌, ◌≡◌, refl, sym, ap, ◌∙◌, subst, inl, inr, true, false, none, some, List,
  [], ◌∷◌, ◌==◌, elem, All, In, In-select, In-select_source, List-cases, length, if◌then◌else◌,
  Bool-cases, Option-cases, some_inj, ◌&&◌, arith,
}
use openedx_completion_aggre.Progress.{
  CompletionRow, ProgressRow, progress_of, update_row, update_rows, unmodified, take_ids,
  migrate_batch,
}

-- If the row has no timestamp, the other table has a row for it.
abbrev pub HasSource : List ProgressRow → CompletionRow → Type 0
HasSource progress row =
    (row.modified == 0) ≡ true → (p : ProgressRow) × (progress_of progress row ≡ some p)

-- The row of the other table has a timestamp.
abbrev pub IsDated : ProgressRow → Type 0
IsDated p = (p.modified == 0) ≡ false

progress_of-IsDated :
    (progress : List ProgressRow) (row : CompletionRow) {p : ProgressRow}
    → All IsDated progress
    → progress_of progress row ≡ some p
    → IsDated p
unfolding progress_of
progress_of-IsDated [] row h e = cc
progress_of-IsDated (q ∷ rest) row {p} (h, hs) e =
    elim (Bool-cases (
      (row.user_id == q.user_id)
      && ((row.block_key == q.content_id) && (row.course_key == q.course_id)))) [
        | inl hit ↦
            subst IsDated
              (some_inj (ap (λ b. if b then some q else progress_of rest row) (sym hit) ∙ e)) h
        | inr miss ↦
            progress_of-IsDated rest row {p = p} hs
              (ap (λ b. if b then some q else progress_of rest row) (sym miss) ∙ e)
      ]

-- A row that an update leaves without a timestamp is as it was before.
module _ (progress : List ProgressRow) (ids : List ℕ) (dated : All IsDated progress) where
  update_row_undated :
      (row : CompletionRow)
      → ((update_row progress ids row).modified == 0) ≡ true
      → update_row progress ids row ≡ row
  unfolding update_row
  update_row_undated row zero_date = elim (Bool-cases (elem row.id ids)) [
    | inr out ↦ rw out
    | inl hit ↦ elim (Option-cases (progress_of progress row)) [
      | inl miss ↦ rw (hit, miss)
      | inr (p, found) ↦
          let good : IsDated p = progress_of-IsDated progress row {p = p} dated found in
          let updated : update_row progress ids row
              ≡ record row { created = p.created; modified = p.modified } =
            rw (hit, found, update_row) in
          absurd (
            apart
              (sym good ∙ ap (λ (r : CompletionRow). r.modified == 0) (sym updated) ∙ zero_date))
    ]
  ]
    where
      apart : false ≡ true → ⊥
      apart e = cc

  All-HasSource :
      (rows : List CompletionRow)
      → All (HasSource progress) rows
      → All (HasSource progress) (update_rows progress ids rows)
  All-HasSource [] h = tt
  All-HasSource (row ∷ rows) (h, hs) = (
    λ undated.
        let same = update_row_undated row undated in
        let (p, found) = h (ap (λ (r : CompletionRow). r.modified == 0) (sym same) ∙ undated) in
        (p, ap (progress_of progress) same ∙ found),
    All-HasSource rows hs,
  )

  length-update_rows :
      (rows : List CompletionRow)
      → length (unmodified (update_rows progress ids rows)) ≤ length (unmodified rows)
  length-update_rows [] = omega arith
  length-update_rows (row ∷ rows) =
      let more = length-update_rows rows in
      elim (Bool-cases ((update_row progress ids row).modified == 0)) [
        | inl undated ↦
            let before =
              ap (λ (r : CompletionRow). r.modified == 0) (sym (update_row_undated row undated))
              ∙ undated in
            rw (undated, before) (omega (arith, more))
        | inr dated_now ↦ elim (Bool-cases (row.modified == 0)) [
          | inl undated ↦ rw (dated_now, undated) (omega (arith, more))
          | inr old ↦ rw (dated_now, old) more
        ]
      ]

  update_row-IsDated :
      (row : CompletionRow)
      → HasSource progress row
      → (row.modified == 0) ≡ true
      → elem row.id ids ≡ true
      → ((update_row progress ids row).modified == 0) ≡ false
  unfolding update_row
  update_row-IsDated row source undated chosen =
      let (p, found) = source undated in
      rw (chosen, found, update_row) (progress_of-IsDated progress row {p = p} dated found)

  -- A chosen row that has no timestamp and a source gets one.
  length-update_rows_less :
      (rows : List CompletionRow) (row : CompletionRow)
      → All (HasSource progress) rows
      → In row rows
      → (row.modified == 0) ≡ true
      → elem row.id ids ≡ true
      → length (unmodified (update_rows progress ids rows)) < length (unmodified rows)
  length-update_rows_less [] row h m undated chosen = elim m [ ]
  length-update_rows_less (r ∷ rows) row (h, hs) (inl e) undated chosen =
      let undated' = ap (λ (x : CompletionRow). x.modified == 0) (sym e) ∙ undated in
      let chosen' = ap (λ (x : CompletionRow). elem x.id ids) (sym e) ∙ chosen in
      rw (update_row-IsDated r h undated' chosen', undated')
        (omega (arith, length-update_rows rows))
  length-update_rows_less (r ∷ rows) row (h, hs) (inr m) undated chosen =
      let more = length-update_rows_less rows row hs m undated chosen in
      elim (Bool-cases ((update_row progress ids r).modified == 0)) [
        | inl still ↦
            let before =
              ap (λ (x : CompletionRow). x.modified == 0) (sym (update_row_undated r still))
              ∙ still in
            rw (still, before) (omega (arith, more))
        | inr dated_now ↦ elim (Bool-cases (r.modified == 0)) [
          | inl was ↦ rw (dated_now, was) (omega (arith, more))
          | inr old ↦ rw (dated_now, old) more
        ]
      ]

-- Where each row without a timestamp has a row in the other table, and all of that table's rows
-- have one, the loop ends after at most one round more than there are such rows, for any positive
-- batch size, and then every row has a timestamp.
pub migrate_batch-IsDone :
    (batch_size : ℕ) (progress : List ProgressRow)
    → 0 < batch_size
    → All IsDated progress
    → (rounds : ℕ) (rows : List CompletionRow) → All (HasSource progress) rows
    → length (unmodified rows) < rounds
    → (rows' : List CompletionRow) × (migrate_batch rounds batch_size progress rows ≡ some rows')
      × (unmodified rows' ≡ [])
unfolding migrate_batch take_ids
migrate_batch-IsDone zero progress positive dated rounds rows h enough = absurd (omega arith)
migrate_batch-IsDone (suc n) progress positive dated zero rows h enough = absurd (omega arith)
migrate_batch-IsDone (suc n) progress positive dated (suc rounds) rows h enough =
    elim (List-cases (unmodified rows)) [
      | inl e ↦ (rows, rw (e, migrate_batch), e)
      | inr (r, rest, e) ↦
          let ids = r.id ∷ take_ids n rest in
          let (m, undated) =
            In-select_source (λ row. row.modified == 0) r rows (subst (In r) (sym e) (inl refl)) in
          let less = length-update_rows_less progress ids dated rows r h m undated (ground arith) in
          let (rows', run, clean) =
            migrate_batch-IsDone (suc n) progress positive dated rounds
              (update_rows progress ids rows) (All-HasSource progress ids dated rows h)
              (omega (arith, enough, less)) in
          (rows', rw (e, migrate_batch) run, clean)
    ]

In-update_rows :
    (progress : List ProgressRow) (row : CompletionRow)
    → progress_of progress row ≡ none
    → (ids : List ℕ) (rows : List CompletionRow) → In row rows
    → In row (update_rows progress ids rows)
unfolding update_row
In-update_rows progress row unknown ids [] m = elim m [ ]
In-update_rows progress row unknown ids (r ∷ rows) (inl e) =
    inl (same ∙ ap (update_row progress ids) e)
  where
    same : row ≡ update_row progress ids row
    same = elim (Bool-cases (elem row.id ids)) [ inl hit ↦ rw (hit, unknown) | inr out ↦ rw out ]
In-update_rows progress row unknown ids (r ∷ rows) (inr m) =
    inr (In-update_rows progress row unknown ids rows m)

-- Where some row without a timestamp has no row in the other table, the loop never ends, for
-- any positive batch size.
pub migrate_batch-none :
    (batch_size : ℕ) (progress : List ProgressRow) (row : CompletionRow)
    → 0 < batch_size
    → (row.modified == 0) ≡ true
    → progress_of progress row ≡ none
    → (rounds : ℕ) (rows : List CompletionRow) → In row rows
    → migrate_batch rounds batch_size progress rows ≡ none
unfolding migrate_batch take_ids
migrate_batch-none zero progress row positive undated unknown rounds rows m = absurd (omega arith)
migrate_batch-none (suc n) progress row positive undated unknown zero rows m = refl
migrate_batch-none (suc n) progress row positive undated unknown (suc rounds) rows m =
    elim (List-cases (unmodified rows)) [
      | inl e ↦ absurd (subst (In row) e (In-select (λ r. r.modified == 0) row rows m undated))
      | inr (r, rest, e) ↦
          let ids = r.id ∷ take_ids n rest in
          rw (e, migrate_batch)
            (migrate_batch-none (suc n) progress row positive undated unknown rounds
              (update_rows progress ids rows) (In-update_rows progress row unknown ids rows m))
    ]
