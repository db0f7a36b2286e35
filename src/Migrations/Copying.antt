-- ===== src/Migrations/Copying.antt =====
-- Which stale completions `copy_data` moves.
use openedx_completion_aggre.Prelude.{
  ℕ, zero, suc, ◌+◌, ◌≤◌, ◌<◌, min, ◌≡◌, refl, sym, ap, ◌∙◌, subst, inl, inr, true, false, List, [],
  ◌∷◌, ◌++◌, In, In-append_left, In-append_right, In-append_cases, In-select, In-select_source,
  append_nil, leb, ltb, le→leb, ltb→lt, lt→ltb, length, select, Bool-cases, and_intro, arith,
}
use openedx_completion_aggre.Models.{StaleCompletion}
use openedx_completion_aggre.Migrations.{
  copy_batch_size, in_span, insert_rows, copy_span, copy_spans, greatest_id, initial_copy,
  final_copy, copy_data,
}

-- The table has the row, under an id of its own.
abbrev pub IsCopied : StaleCompletion → List StaleCompletion → Type 0
IsCopied row target = (i : ℕ) × In (record row { id = i }) target

module _ (row : StaleCompletion) where
  insert_rows-keeps :
      (rows target : List StaleCompletion)
      → IsCopied row target
      → IsCopied row (insert_rows rows target)
  unfolding insert_rows
  insert_rows-keeps [] target h = h
  insert_rows-keeps (r ∷ rows) target (i, m) =
      insert_rows-keeps rows (target ++ record r { id = suc (length target) } ∷ [])
        (i, In-append_left (record row { id = i }) target _ m)

  insert_rows-IsCopied :
      (rows target : List StaleCompletion) → In row rows → IsCopied row (insert_rows rows target)
  unfolding insert_rows
  insert_rows-IsCopied [] target m = elim m [ ]
  insert_rows-IsCopied (r ∷ rows) target (inl e) =
      let i = suc (length target) in
      insert_rows-keeps rows (target ++ record r { id = i } ∷ []) (
        i,
        subst
            (λ (x : StaleCompletion). In (record x { id = i }) (target ++ record r { id = i } ∷ []))
            (sym e) (In-append_right (record r { id = i }) target),
      )
  insert_rows-IsCopied (r ∷ rows) target (inr m) =
      insert_rows-IsCopied rows (target ++ record r { id = suc (length target) } ∷ []) m

  module _ (source : List StaleCompletion) where
    copy_span-keeps :
        (start end : ℕ) (target : List StaleCompletion)
        → IsCopied row target
        → IsCopied row (copy_span start end source target)
    unfolding copy_span
    copy_span-keeps start end target h =
        insert_rows-keeps (select (in_span start end) source) target h

    copy_span-IsCopied :
        (start end : ℕ) (target : List StaleCompletion)
        → In row source
        → start ≤ row.id
        → row.id < end
        → IsCopied row (copy_span start end source target)
    unfolding copy_span
    copy_span-IsCopied start end target m low high =
        insert_rows-IsCopied (select (in_span start end) source) target (
          In-select (in_span start end) row source m (
            and_intro (leb start row.id) (ltb row.id end) (le→leb start row.id low)
              (lt→ltb row.id end high)))

    module _ (end_of : ℕ → ℕ) (stop : ℕ) where
      copy_spans-keeps :
          (rounds start : ℕ) (target : List StaleCompletion)
          → IsCopied row target
          → IsCopied row (copy_spans end_of rounds start stop source target)
      unfolding copy_spans
      copy_spans-keeps zero start target h = h
      copy_spans-keeps (suc rounds) start target h = elim (Bool-cases (ltb start stop)) [
        | inl more ↦
            rw (more, copy_spans)
              (copy_spans-keeps rounds (start + copy_batch_size)
                (copy_span start (end_of start) source target)
                (copy_span-keeps start (end_of start) target h))
        | inr done ↦ rw (done, copy_spans) h
      ]

      copy_spans-IsCopied :
          ((start : ℕ) → row.id < start + copy_batch_size → row.id < end_of start)
          → (rounds start : ℕ) (target : List StaleCompletion) → In row source
          → start ≤ row.id
          → row.id < stop
          → stop < start + rounds
          → IsCopied row (copy_spans end_of rounds start stop source target)
      unfolding copy_spans
      copy_spans-IsCopied spans zero start target m low high enough = absurd (omega arith)
      copy_spans-IsCopied spans (suc rounds) start target m low high enough =
          let next = start + copy_batch_size in
          let copied = copy_span start (end_of start) source target in
          rw (lt→ltb start stop (omega arith), copy_spans)
            (elim (Bool-cases (ltb row.id next)) [
              | inl here ↦ copy_spans-keeps rounds next copied (
                  copy_span-IsCopied start (end_of start) target m low
                    (spans start (ltb→lt row.id next here)))
              | inr later ↦
                  copy_spans-IsCopied spans rounds next copied m (ground arith) high (omega arith)
            ])

greatest_id_otherwise :
    (rows : List StaleCompletion) → greatest_id (greatest_id 0 rows) rows ≡ greatest_id 0 rows
unfolding greatest_id
greatest_id_otherwise [] = refl
greatest_id_otherwise (row ∷ rows) = refl

-- Every stale completion of the old table whose id is less than the greatest one is moved, both
-- those that were there at the start and those that arrived before the tables were renamed.
pub copy_data-IsCopied :
    (before arrived : List StaleCompletion) (row : StaleCompletion)
    → In row (before ++ arrived)
    → row.id < greatest_id (greatest_id 0 before) (before ++ arrived)
    → IsCopied row (copy_data before arrived)
unfolding copy_data
copy_data-IsCopied before arrived row m high =
    let old = before ++ arrived in
    let low : ℕ = greatest_id 0 before in
    let top : ℕ = greatest_id low old in
    elim (Bool-cases (ltb row.id low)) [
      | inl early ↦
          copy_spans-keeps row old (λ start. start + copy_batch_size) top (suc top) low
            (initial_copy low old [])
            (copy_spans-IsCopied row old (λ start. min (start + copy_batch_size) low) low
              (λ start h. omega (arith, ltb→lt row.id low early)) (suc low) 0 [] m (omega arith)
              (ltb→lt row.id low early) (omega arith))
      | inr late ↦
          copy_spans-IsCopied row old (λ start. start + copy_batch_size) top (λ start h. h)
            (suc top) low (initial_copy low old []) m (ground arith) high (omega arith)
    ]

-- Each row of the table is a copy of a row with the property.
abbrev IsFrom : (StaleCompletion → Type 0) → List StaleCompletion → Type 0
IsFrom P target =
    (x : StaleCompletion)
    → In x target
    → (row : StaleCompletion) × P row × (x ≡ record row { id = x.id })

module _ (P : StaleCompletion → Type 0) where
  insert_rows-IsFrom :
      (rows target : List StaleCompletion)
      → ((row : StaleCompletion) → In row rows → P row)
      → IsFrom P target
      → IsFrom P (insert_rows rows target)
  unfolding insert_rows
  insert_rows-IsFrom [] target h old = old
  insert_rows-IsFrom (row ∷ rows) target h old =
      insert_rows-IsFrom rows (target ++ record row { id = suc (length target) } ∷ [])
        (λ r m. h r (inr m))
        (λ x m. elim (In-append_cases x target m) [
          | inl before ↦ old x before
          | inr e ↦ (
            row,
            h row (inl refl),
            e ∙ ap (λ i. record row { id = i }) (sym (ap (λ (y : StaleCompletion). y.id) e)),
          )
        ])

  copy_spans-IsFrom :
      (source : List StaleCompletion) (end_of : ℕ → ℕ) (stop rounds start : ℕ)
      (target : List StaleCompletion)
      → ((s : ℕ) (row : StaleCompletion) → In row source → row.id < end_of s → P row)
      → IsFrom P target
      → IsFrom P (copy_spans end_of rounds start stop source target)
  unfolding copy_spans copy_span
  copy_spans-IsFrom source end_of stop zero start target h old = old
  copy_spans-IsFrom source end_of stop (suc rounds) start target h old =
      elim (Bool-cases (ltb start stop)) [
        | inl more ↦
            rw (more, copy_spans)
              (copy_spans-IsFrom source end_of stop rounds (start + copy_batch_size)
                (copy_span start (end_of start) source target) h
                (insert_rows-IsFrom (select (in_span start (end_of start)) source) target
                  (λ row m.
                    let (n, inside) =
                      In-select_source (in_span start (end_of start)) row source m in
                    h start row n (span_end start (end_of start) row inside))
                  old))
        | inr done ↦ rw (done, copy_spans) old
      ]
    where
      span_end :
          (start end : ℕ) (row : StaleCompletion) → in_span start end row ≡ true → row.id < end
      span_end start end row h = ground arith

copy_spans_done :
    (end_of : ℕ → ℕ) (rounds stop : ℕ) (source target : List StaleCompletion)
    → copy_spans end_of rounds stop stop source target ≡ target
unfolding copy_spans
copy_spans_done end_of zero stop source target = refl
copy_spans_done end_of (suc rounds) stop source target = rw (not_less stop)
  where
    not_less : (n : ℕ) → ltb n n ≡ false
    not_less n = ground arith

-- Where nothing arrives while the data is copied, the newest stale completion is lost: each row of
-- the new table is a copy of a row whose id is less than the greatest id of the old table.
pub copy_data-IsFrom :
    (before : List StaleCompletion) (x : StaleCompletion)
    → In x (copy_data before [])
    → (row : StaleCompletion) × (In row before × (row.id < greatest_id 0 before))
      × (x ≡ record row { id = x.id })
unfolding copy_data
copy_data-IsFrom before x m =
    let old = before ++ [] in
    let same : old ≡ before = append_nil before in
    let low : ℕ = greatest_id 0 before in
    let first = initial_copy low old [] in
    let ends : greatest_id low old ≡ low =
      ap (greatest_id low) same ∙ greatest_id_otherwise before in
    let kept : In x first =
      subst (In x) (copy_spans_done (λ start. start + copy_batch_size) (suc low) low old first)
        (subst (λ top. In x (final_copy low top old first)) ends m) in
    copy_spans-IsFrom (λ row. In row before × (row.id < low)) old
      (λ start. min (start + copy_batch_size) low) low (suc low) 0 []
      (λ s row n h. (subst (In row) same n, omega (arith, h))) (λ y n. elim n [ ]) x kept
