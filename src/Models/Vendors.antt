-- ===== src/Models/Vendors.antt =====
-- What the two ways of writing of `bulk_create_or_update` (models.py) do to the map that the table
-- stands for.
use openedx_completion_aggre.Prelude.{
  ◌≡◌, refl, ap, ◌∙◌, inl, inr, Bool, true, false, List, [], ◌∷◌, All, if◌then◌else◌, Bool-cases,
  Option-cases, Result, ok, raise, ◌+◌,
}
use openedx_completion_aggre.Float.{Float}
use openedx_completion_aggre.Platform.{Platform}
use openedx_completion_aggre.Models.{Aggregator, Database, continue}
use openedx_completion_aggre.Models.Manager.{
  RowKey, key_of, find_row, put_row, pre_save, update_or_create, emit_completion_aggregator_logs,
  submit_completion, submit_all, get_values, get_all_values, on_duplicate, execute_many,
  bulk_create_or_update,
}
use openedx_completion_aggre.Models.Table.{find_row-key_of}
use openedx_completion_aggre.Models.Soundness.{HasPercent}
use openedx_completion_aggre.Models.Abstract.{view, write, write_all, write_all_ap, put_row-view}

module _ {F : Type 0} ⦃fl : Float F⦄ where
  -- The row passes the validators, and its percentage is the one that `get_percent` computes.
  pub record IsValid (row : Aggregator F) : Type 0 where
    pub valid : pre_save row ≡ ok tt
    pub percent : HasPercent row

  execute_many-view :
      (rows table : List (Aggregator F)) (k : RowKey)
      → view (execute_many rows table) k ≡ write_all rows (view table) k
  unfolding execute_many
  execute_many-view [] table k = refl
  execute_many-view (row ∷ rows) table k =
      execute_many-view rows (put_row (on_duplicate row) row table) k
      ∙ write_all_ap rows (view (put_row (on_duplicate row) row table)) (write row (view table))
          (put_row-view (on_duplicate row) row table (λ old e. e) (λ old. refl)) k

  -- A method that returns, having written the rows.
  abbrev WritesAll :
      {A : Type 0} → List (Aggregator F) → Result A × Database F → Database F → Type 0
  WritesAll {A} rows r db =
      (a : A) × (db' : Database F) × (r ≡ (ok a, db'))
      × ((k : RowKey) → view db'.aggregators k ≡ write_all rows (view db.aggregators) k)

  update_or_create-view :
      (platform : Platform) (row : Aggregator F) (db : Database F)
      → pre_save row ≡ ok tt
      → WritesAll (row ∷ []) (update_or_create platform row db) db
  unfolding update_or_create pre_save
  update_or_create-view platform row db valid =
      let time = platform.clock db.ticks in
      let new = record row { created = time; modified = time } in
      let new_valid : pre_save new ≡ ok tt = valid in
      elim (Option-cases (find_row (key_of row) db.aggregators)) [
        | inl miss ↦ (
          (new, true),
          record db { aggregators = put_row (λ old. new) new db.aggregators; ticks = db.ticks + 1 },
          rw (miss, new_valid, update_or_create),
          put_row-view (λ old. new) new db.aggregators (λ old e. refl) (λ old. refl),
        )
        | inr (old, hit) ↦
            let saved = record new { user = old.user; created = old.created } in
            let saved_valid : pre_save saved ≡ ok tt = valid in
            let same_user =
              ap (λ (k : RowKey). k.user_id)
                (find_row-key_of (key_of row) db.aggregators {row = old} hit) in
            (
              (saved, false),
              record db {
                aggregators = put_row (λ old'. saved) new db.aggregators;
                ticks = db.ticks + 1;
              },
              rw (hit, saved_valid, update_or_create),
              put_row-view (λ old'. saved) new db.aggregators
                  (λ old' e. ap (λ i. record (key_of new) { user_id = i }) same_user)
                  (λ old'. refl),
            )
      ]

  submit_completion-view :
      (platform : Platform) (row : Aggregator F) (db : Database F)
      → IsValid row
      → WritesAll (row ∷ []) (submit_completion platform row db) db
  unfolding submit_completion emit_completion_aggregator_logs
  submit_completion-view platform row db good =
      let (a, db', run, same) = update_or_create-view platform row db good.valid in
      (
        a,
        (emit_completion_aggregator_logs platform (a.0 ∷ []) db').1,
        rw (good.percent, submit_completion) (rw run),
        same,
      )

  submit_all-view :
      (platform : Platform) (rows : List (Aggregator F)) (db : Database F)
      → All IsValid rows
      → WritesAll rows (submit_all platform rows db) db
  unfolding submit_all
  submit_all-view platform [] db good = (tt, db, refl, λ k. refl)
  submit_all-view platform (row ∷ rows) db (h, good) =
      let (a, db₁, run, same) = submit_completion-view platform row db h in
      let (b, db₂, more, rest) = submit_all-view platform rows db₁ good in
      (
        b,
        db₂,
        ap
              (λ (r : Result (Aggregator F × Bool) × Database F).
                continue r.0 (λ _. submit_all platform rows) r.1)
              run
            ∙ more,
        λ k.
            rest k
            ∙ write_all_ap rows (view db₁.aggregators) (write row (view db.aggregators)) same k,
      )

  get_all_values-IsValid :
      (rows : List (Aggregator F)) → All IsValid rows → get_all_values rows ≡ ok rows
  unfolding get_all_values get_values
  get_all_values-IsValid [] good = refl
  get_all_values-IsValid (row ∷ rows) (h, good) = rw (h.percent, get_all_values-IsValid rows good)

  -- Whichever database is used: where each aggregator passes the validators and carries the
  -- percentage that get_percent computes, bulk_create_or_update returns, and the map from unique
  -- keys to values is then the one before with the values of the aggregators written one after the
  -- other.
  pub bulk_create_or_update-view :
      (platform : Platform) (rows : List (Aggregator F)) (db : Database F)
      → All IsValid rows
      → (db' : Database F) × (bulk_create_or_update platform rows db ≡ (ok tt, db'))
        × ((k : RowKey) → view db'.aggregators k ≡ write_all rows (view db.aggregators) k)
  unfolding bulk_create_or_update emit_completion_aggregator_logs
  bulk_create_or_update-view platform [] db good = (db, refl, λ k. refl)
  bulk_create_or_update-view platform (row ∷ rows) db good = elim (Bool-cases platform.sqlite) [
    | inl sqlite ↦
        let (a, db', run, same) = submit_all-view platform (row ∷ rows) db good in
        (db', by_vendor sqlite ∙ run, same)
    | inr other ↦ (
      (in_bulk (ok (row ∷ rows))).1,
      by_vendor other ∙ ap in_bulk (get_all_values-IsValid (row ∷ rows) good),
      execute_many-view (row ∷ rows) db.aggregators,
    )
  ]
    where
      in_bulk : Result (List (Aggregator F)) → Result (Unit {0}) × Database F
      in_bulk res = elim res [
        | raise e ↦ (raise e, db)
        | ok values ↦
            emit_completion_aggregator_logs platform (row ∷ rows)
              (record db { aggregators = execute_many values db.aggregators })
      ]

      by_vendor :
          {b : Bool}
          → platform.sqlite ≡ b
          → bulk_create_or_update platform (row ∷ rows) db ≡ (
              if b
              then submit_all platform (row ∷ rows) db
              else in_bulk (get_all_values (row ∷ rows)))
      by_vendor e =
          ap
            (λ b.
              if b
              then submit_all platform (row ∷ rows) db
              else in_bulk (get_all_values (row ∷ rows)))
            e
