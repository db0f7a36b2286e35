-- ===== src/Models/Table.antt =====
-- Tables with a unique key: finding a row and putting one.
use openedx_completion_aggre.Prelude.{
  ◌≡◌, refl, sym, ap, ◌∙◌, ◌↔◌, inl, inr, true, false, Option, none, some, List, [], ◌∷◌, All,
  str_eq_iff, if◌then◌else◌, Bool-cases, arith,
}
use openedx_completion_aggre.Models.{Aggregator}
use openedx_completion_aggre.Models.Manager.{RowKey, key_eq, key_of, find_row, put_row}

pub key_eq_iff : (a b : RowKey) → (key_eq a b ≡ true) ↔ (a ≡ b)
key_eq_iff a b = (
  λ h. ground (arith, str_eq_iff a.aggregation_name b.aggregation_name),
  λ e. ground (arith, str_eq_iff a.aggregation_name b.aggregation_name),
)

module _ {F : Type 0} where
  -- No two rows have the same key.
  abbrev pub IsUnique : List (Aggregator F) → Type 0
  IsUnique [] = Unit {0}
  IsUnique (row ∷ rows) = (find_row (key_of row) rows ≡ none) × IsUnique rows

  pub find_row-key_of :
      (k : RowKey) (rows : List (Aggregator F)) {row : Aggregator F}
      → find_row k rows ≡ some row
      → key_of row ≡ k
  unfolding find_row
  find_row-key_of k [] e = cc
  find_row-key_of k (old ∷ rows) {row} e = elim (Bool-cases (key_eq (key_of old) k)) [
    | inl same ↦
        let hit : old ≡ row = ground arith in
        ap (λ (r : Aggregator F). key_of r) (sym hit) ∙ (key_eq_iff (key_of old) k).0 same
    | inr other ↦ find_row-key_of k rows {row = row} (ground arith)
  ]

  module _ (change : Aggregator F → Aggregator F) (row : Aggregator F) where
    -- The row that is found after the write, by the one that was found before.
    abbrev pub changed_at : Option (Aggregator F) → Option (Aggregator F)
    changed_at none = some row
    changed_at (some old) = some (change old)

    pub find_row-put_row_same :
        (rows : List (Aggregator F))
        → ((old : Aggregator F) → key_of old ≡ key_of row → key_of (change old) ≡ key_of row)
        → find_row (key_of row) (put_row change row rows) ≡ changed_at (find_row (key_of row) rows)
    unfolding find_row put_row
    find_row-put_row_same [] keeps = rw ((key_eq_iff (key_of row) (key_of row)).1 refl)
    find_row-put_row_same (old ∷ rows) keeps =
        elim (Bool-cases (key_eq (key_of old) (key_of row))) [
          | inl same ↦
              let kept = keeps old ((key_eq_iff (key_of old) (key_of row)).0 same) in
              rw (same, (key_eq_iff (key_of (change old)) (key_of row)).1 kept)
          | inr other ↦
              rw (other, find_row-put_row_same rows keeps)
                (ap (λ b. if b then some old else changed_at (find_row (key_of row) rows)) other)
        ]

    pub find_row-put_row_other :
        (k : RowKey) (rows : List (Aggregator F))
        → ((old : Aggregator F) → key_of old ≡ key_of row → key_of (change old) ≡ key_of row)
        → key_eq (key_of row) k ≡ false
        → find_row k (put_row change row rows) ≡ find_row k rows
    unfolding find_row put_row
    find_row-put_row_other k [] keeps h = rw h
    find_row-put_row_other k (old ∷ rows) keeps h =
        elim (Bool-cases (key_eq (key_of old) (key_of row))) [
          | inl same ↦
              let e = (key_eq_iff (key_of old) (key_of row)).0 same in
              let old_other : key_eq (key_of old) k ≡ false = ap (λ x. key_eq x k) e ∙ h in
              let new_other : key_eq (key_of (change old)) k ≡ false =
                ap (λ x. key_eq x k) (keeps old e) ∙ h in
              rw (same, old_other, new_other)
          | inr other ↦ rw (other, find_row-put_row_other k rows keeps h)
        ]

    pub put_row-All :
        (P : Aggregator F → Type 0) (rows : List (Aggregator F))
        → P row
        → ((old : Aggregator F) → P (change old))
        → All P rows
        → All P (put_row change row rows)
    unfolding put_row
    put_row-All P [] new changed good = (new, tt)
    put_row-All P (old ∷ rows) new changed (h, good) =
        elim (Bool-cases (key_eq (key_of old) (key_of row))) [
          | inl same ↦ rw same (changed old, good)
          | inr other ↦ rw other (h, put_row-All P rows new changed good)
        ]

    pub put_row-IsUnique :
        (rows : List (Aggregator F))
        → ((old : Aggregator F) → key_of old ≡ key_of row → key_of (change old) ≡ key_of row)
        → IsUnique rows
        → IsUnique (put_row change row rows)
    unfolding put_row find_row
    put_row-IsUnique [] keeps u = (refl, tt)
    put_row-IsUnique (old ∷ rows) keeps (fresh, u) =
        elim (Bool-cases (key_eq (key_of old) (key_of row))) [
          | inl same ↦
              let e = (key_eq_iff (key_of old) (key_of row)).0 same in
              rw same (
                ap {B = Option (Aggregator F)} (λ x. find_row x rows) (keeps old e ∙ sym e) ∙ fresh,
                u,
              )
          | inr other ↦ rw other (
            find_row-put_row_other (key_of old) rows keeps
                  (key_eq_sym (key_of old) (key_of row) other)
                ∙ fresh,
            put_row-IsUnique rows keeps u,
          )
        ]
      where
        false_not_true : false ≡ true → ⊥
        false_not_true e = cc

        key_eq_sym : (a b : RowKey) → key_eq a b ≡ false → key_eq b a ≡ false
        key_eq_sym a b h = elim (Bool-cases (key_eq b a)) [
          | inl back ↦
              absurd (false_not_true (sym h ∙ (key_eq_iff a b).1 (sym ((key_eq_iff b a).0 back))))
          | inr done ↦ done
        ]
