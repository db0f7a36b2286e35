-- ===== src/Models/Abstract.antt =====
-- The table of aggregators (models.py) as a map from unique keys to values.
use openedx_completion_aggre.Prelude.{
  ◌≡◌, refl, sym, ap, ◌∙◌, inl, inr, true, false, Option, none, some, List, [], ◌∷◌, All, In, ◌⊎◌,
  if◌then◌else◌, Bool-cases,
}
use openedx_completion_aggre.Platform.{Time}
use openedx_completion_aggre.Models.{Aggregator}
use openedx_completion_aggre.Models.Manager.{RowKey, key_eq, key_of, find_row, put_row}
use openedx_completion_aggre.Models.Table.{
  key_eq_iff, changed_at, find_row-put_row_same, find_row-put_row_other,
}

-- The values of a row, without the bookkeeping of its creation and change.
pub record Values (F : Type 0) : Type 0 where
  pub earned : F
  pub possible : F
  pub percent : F
  pub last_modified : Time

module _ {F : Type 0} where
  abbrev pub values_of : Aggregator F → Values F
  values_of row = record {
    earned = row.earned;
    possible = row.possible;
    percent = row.percent;
    last_modified = row.last_modified;
  }

  abbrev found_values : Option (Aggregator F) → Option (Values F)
  found_values none = none
  found_values (some row) = some (values_of row)

  -- What the table holds under a key.
  abbrev pub view : List (Aggregator F) → RowKey → Option (Values F)
  view rows k = found_values (find_row k rows)

  -- The map with the values of one aggregator, and of a list one after the other.
  abbrev pub write : Aggregator F → (RowKey → Option (Values F)) → RowKey → Option (Values F)
  write row m k = if key_eq (key_of row) k then some (values_of row) else m k

  abbrev pub write_all :
      List (Aggregator F) → (RowKey → Option (Values F)) → RowKey → Option (Values F)
  write_all [] m k = m k
  write_all (row ∷ rows) m k = write_all rows (write row m) k

  pub write_all_ap :
      (rows : List (Aggregator F)) (m m' : RowKey → Option (Values F))
      → ((k : RowKey) → m k ≡ m' k)
      → (k : RowKey) → write_all rows m k ≡ write_all rows m' k
  write_all_ap [] m m' h k = h k
  write_all_ap (row ∷ rows) m m' h k =
      write_all_ap rows (write row m) (write row m')
        (λ x. ap (λ o. if key_eq (key_of row) x then some (values_of row) else o) (h x)) k

  pub write_all-other :
      (rows : List (Aggregator F)) (m : RowKey → Option (Values F)) (k : RowKey)
      → All (λ (row : Aggregator F). key_eq (key_of row) k ≡ false) rows
      → write_all rows m k ≡ m k
  write_all-other [] m k h = refl
  write_all-other (row ∷ rows) m k (h, others) =
      write_all-other rows (write row m) k others
      ∙ ap (λ b. if b then some (values_of row) else m k) h

  pub write_all-same :
      (rows : List (Aggregator F)) (m : RowKey → Option (Values F)) (k : RowKey) (v : Values F)
      → ((row : Aggregator F) → In row rows → key_of row ≡ k → values_of row ≡ v)
      → (m k ≡ some v) ⊎ ((row : Aggregator F) × In row rows × (key_of row ≡ k))
      → write_all rows m k ≡ some v
  write_all-same [] m k v agree (inl h) = h
  write_all-same [] m k v agree (inr (row, n, e)) = elim n [ ]
  write_all-same (row ∷ rows) m k v agree given =
      write_all-same rows (write row m) k v (λ r n. agree r (inr n))
        (elim (Bool-cases (key_eq (key_of row) k)) [
          | inl hit ↦ inl (
              ap (λ b. if b then some (values_of row) else m k) hit
              ∙ ap some (agree row (inl refl) ((key_eq_iff (key_of row) k).0 hit)))
          | inr miss ↦ elim given [
            | inl h ↦ inl (ap (λ b. if b then some (values_of row) else m k) miss ∙ h)
            | inr (r, n, e) ↦ elim n [
              | inl now ↦ absurd (apart miss (ap (λ (x : Aggregator F). key_of x) (sym now) ∙ e))
              | inr later ↦ inr (r, later, e)
            ]
          ]
        ])
    where
      false_not_true : false ≡ true → ⊥
      false_not_true e = cc

      apart : {a b : RowKey} → key_eq a b ≡ false → a ≡ b → ⊥
      apart {a} {b} h e = false_not_true (sym h ∙ (key_eq_iff a b).1 e)

  pub put_row-view :
      (change : Aggregator F → Aggregator F) (row : Aggregator F) (rows : List (Aggregator F))
      → ((old : Aggregator F) → key_of old ≡ key_of row → key_of (change old) ≡ key_of row)
      → ((old : Aggregator F) → values_of (change old) ≡ values_of row)
      → (k : RowKey) → view (put_row change row rows) k ≡ write row (view rows) k
  put_row-view change row rows keeps same k = elim (Bool-cases (key_eq (key_of row) k)) [
    | inl hit ↦ rw hit (
        ap (view (put_row change row rows)) (sym ((key_eq_iff (key_of row) k).0 hit))
        ∙ ap found_values (find_row-put_row_same change row rows keeps)
        ∙ changed (find_row (key_of row) rows))
    | inr miss ↦ rw miss (ap found_values (find_row-put_row_other change row k rows keeps miss))
  ]
    where
      changed :
          (o : Option (Aggregator F))
          → found_values (changed_at change row o) ≡ some (values_of row)
      changed none = refl
      changed (some old) = ap some (same old)
