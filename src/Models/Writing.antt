-- ===== src/Models/Writing.antt =====
-- What the bulk query leaves in the table of aggregators.
use openedx_completion_aggre.Prelude.{
  ◌≡◌, refl, sym, ap, ◌∙◌, ◌⊎◌, inl, inr, false, Option, some, List, [], ◌∷◌, In, All,
  if◌then◌else◌, Bool-cases, ok,
}
use openedx_completion_aggre.Float.{Float}
use openedx_completion_aggre.Platform.{Platform}
use openedx_completion_aggre.Models.{Aggregator, Database}
use openedx_completion_aggre.Models.Table.{key_eq_iff, find_row-put_row_other}
use openedx_completion_aggre.Models.Manager.{
  RowKey, key_eq, key_of, find_row, put_row, get_values, get_all_values, on_duplicate, execute_many,
  emit_completion_aggregator_logs, bulk_create_or_update,
}

module _ {F : Type 0} where
  -- The stored row carries the values of the written one.
  pub record Carries (written stored : Aggregator F) : Type 0 where
    pub earned : stored.earned ≡ written.earned
    pub possible : stored.possible ≡ written.possible
    pub percent : stored.percent ≡ written.percent
    pub last_modified : stored.last_modified ≡ written.last_modified
    pub modified : stored.modified ≡ written.modified

  -- Under a key the table has what the list wrote last, or, if it wrote nothing, what was there.
  abbrev pub Written :
      List (Aggregator F) → List (Aggregator F) → RowKey → List (Aggregator F) → Type 0
  Written values rows k rows' =
      ((v : Aggregator F) × In v values
        × (key_of v ≡ k)
        × ((r : Aggregator F) × (find_row k rows' ≡ some r) × Carries v r))
      ⊎ ((v : Aggregator F) → In v values → key_eq (key_of v) k ≡ false)
        × (find_row k rows' ≡ find_row k rows)

module _ {F : Type 0} ⦃fl : Float F⦄ where
  find_row-put_same :
      (v : Aggregator F) (rows : List (Aggregator F))
      → (r : Aggregator F) × (find_row (key_of v) (put_row (on_duplicate v) v rows) ≡ some r)
        × Carries v r
  unfolding find_row put_row
  find_row-put_same v [] = (
    v,
    rw ((key_eq_iff (key_of v) (key_of v)).1 refl),
    record {
      earned = refl;
      possible = refl;
      percent = refl;
      last_modified = refl;
      modified = refl;
    },
  )
  find_row-put_same v (old ∷ rows) = elim (Bool-cases (key_eq (key_of old) (key_of v))) [
    | inl same ↦ (
      on_duplicate v old,
      rw (same, put_row)
          (ap (λ b. if b then some (on_duplicate v old) else find_row (key_of v) rows) same),
      record {
        earned = refl;
        possible = refl;
        percent = refl;
        last_modified = refl;
        modified = refl;
      },
    )
    | inr other ↦
        let (r, found, carries) = find_row-put_same v rows in
        let rest = put_row (on_duplicate v) v rows in
        (
          r,
          ap {B = Option (Aggregator F)}
                (λ b. find_row (key_of v) (if b then on_duplicate v old ∷ rows else old ∷ rest))
                other
              ∙ ap (λ b. if b then some old else find_row (key_of v) rest) other
              ∙ found,
          carries,
        )
  ]

  execute_many-Written :
      (values rows : List (Aggregator F)) (k : RowKey)
      → Written values rows k (execute_many values rows)
  unfolding execute_many
  execute_many-Written [] rows k = inr (λ v m. elim m [ ], refl)
  execute_many-Written (v ∷ values) rows k =
      elim (execute_many-Written values (put_row (on_duplicate v) v rows) k) [
        | inl (w, m, same, stored) ↦ inl (w, inr m, same, stored)
        | inr (no_other, kept) ↦ elim (Bool-cases (key_eq (key_of v) k)) [
          | inl same ↦
              let e = (key_eq_iff (key_of v) k).0 same in
              let (r, found, carries) = find_row-put_same v rows in
              inl (
                v,
                inl refl,
                e,
                (
                  r,
                  kept
                      ∙ ap {B = Option (Aggregator F)}
                          (λ x. find_row x (put_row (on_duplicate v) v rows)) (sym e)
                      ∙ found,
                  carries,
                ),
              )
          | inr other ↦ inr (
            λ w m. elim m [
              | inl e ↦ ap (λ (x : Aggregator F). key_eq (key_of x) k) e ∙ other
              | inr n ↦ no_other w n
            ],
            kept ∙ find_row-put_row_other (on_duplicate v) v k rows (λ old e. e) other,
          )
        ]
      ]

  get_all_values_ok :
      (rows : List (Aggregator F))
      → All (λ (row : Aggregator F). get_values row ≡ ok row) rows
      → get_all_values rows ≡ ok rows
  unfolding get_all_values
  get_all_values_ok [] good = refl
  get_all_values_ok (row ∷ rows) (h, good) = rw (h, get_all_values_ok rows good)

  -- On a database other than SQLite, where the percentage that the bulk query computes is the one
  -- of each aggregator, the bulk write raises nothing; then, under each unique key, the table has
  -- the values of an aggregator of the list with that key, or, if none has it, the same as before.
  pub bulk_create_or_update-Written :
      (platform : Platform) (updated : List (Aggregator F)) (db : Database F)
      → platform.sqlite ≡ false
      → All (λ (row : Aggregator F). get_values row ≡ ok row) updated
      → (db' : Database F) × (bulk_create_or_update platform updated db ≡ (ok tt, db'))
        × ((k : RowKey) → Written updated db.aggregators k db'.aggregators)
  unfolding bulk_create_or_update emit_completion_aggregator_logs execute_many
  bulk_create_or_update-Written platform [] db vendor good =
      (db, refl, λ k. inr (λ v m. elim m [ ], refl))
  bulk_create_or_update-Written platform (row ∷ rows) db vendor good = (
    (emit_completion_aggregator_logs platform (row ∷ rows)
        (record db { aggregators = execute_many (row ∷ rows) db.aggregators })).1,
    rw (vendor, get_all_values_ok (row ∷ rows) good),
    execute_many-Written (row ∷ rows) db.aggregators,
  )
