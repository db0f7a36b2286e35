-- ===== src/Models/Soundness.antt =====
-- What every table of aggregators satisfies, whatever the program writes to it.
use openedx_completion_aggre.Prelude.{
  ◌≡◌, refl, ap, subst, inl, inr, List, [], ◌∷◌, All, Option-cases, Result-cases, ◌>>=◌, >>=-eq-ok,
  ok_inj, ok,
}
use openedx_completion_aggre.Float.{Float}
use openedx_completion_aggre.Platform.{Platform}
use openedx_completion_aggre.Utils.{get_percent}
use openedx_completion_aggre.Models.{Aggregator, Database}
use openedx_completion_aggre.Models.Manager.{
  emit_completion_aggregator_logs, RowKey, key_of, find_row, put_row, pre_save, update_or_create,
  get_values, get_all_values, on_duplicate, execute_many,
}
use openedx_completion_aggre.Models.Table.{IsUnique, find_row-key_of, put_row-All, put_row-IsUnique}
use openedx_completion_aggre.Models.Preserving.{Preserves, KeptByWrites}

module _ {F : Type 0} ⦃fl : Float F⦄ where
  -- The stored percentage is the one that `get_percent` computes: in particular no more is earned
  -- than possible.
  abbrev pub HasPercent : Aggregator F → Type 0
  HasPercent row = get_percent row.earned row.possible ≡ ok row.percent

  -- The table respects its unique key, and each row has its percentage.
  pub record IsSoundTable (rows : List (Aggregator F)) : Type 0 where
    pub unique : IsUnique rows
    pub percents : All HasPercent rows

  get_all_values-HasPercent :
      (rows : List (Aggregator F)) {values : List (Aggregator F)}
      → get_all_values rows ≡ ok values
      → All HasPercent values
  unfolding get_all_values get_values
  get_all_values-HasPercent [] {values} e = subst (All HasPercent) (ok_inj e) tt
  get_all_values-HasPercent (row ∷ rows) e =
      let more = get_all_values rows in
      let (v, made, e₁) = >>=-eq-ok (get_values row) (λ x. more >>= λ others. ok (x ∷ others)) e in
      let (vs, rest, e₂) = >>=-eq-ok more (λ others. ok (v ∷ others)) e₁ in
      let (p, computed, e₃) =
        >>=-eq-ok (get_percent row.earned row.possible)
          (λ percent. ok (record row { percent = percent })) made in
      subst (All HasPercent) (ok_inj e₂)
        (subst HasPercent (ok_inj e₃) computed, get_all_values-HasPercent rows rest)

  put_row-IsSoundTable :
      (change : Aggregator F → Aggregator F) (row : Aggregator F) (rows : List (Aggregator F))
      → HasPercent row
      → ((old : Aggregator F) → HasPercent (change old))
      → ((old : Aggregator F) → key_of old ≡ key_of row → key_of (change old) ≡ key_of row)
      → IsSoundTable rows
      → IsSoundTable (put_row change row rows)
  put_row-IsSoundTable change row rows h changed keeps s = record {
    unique = put_row-IsUnique change row rows keeps s.unique;
    percents = put_row-All change row HasPercent rows h changed s.percents;
  }

  execute_many-IsSoundTable :
      (values rows : List (Aggregator F))
      → All HasPercent values
      → IsSoundTable rows
      → IsSoundTable (execute_many values rows)
  unfolding execute_many
  execute_many-IsSoundTable [] rows good s = s
  execute_many-IsSoundTable (v ∷ values) rows (h, good) s =
      execute_many-IsSoundTable values (put_row (on_duplicate v) v rows) good
        (put_row-IsSoundTable (on_duplicate v) v rows h (λ old. h) (λ old e. e) s)

  abbrev pub SoundDatabase : Database F → Type 0
  SoundDatabase db = IsSoundTable db.aggregators

  update_or_create-IsSoundTable :
      (platform : Platform) (row : Aggregator F)
      → HasPercent row
      → Preserves SoundDatabase (update_or_create platform row)
  unfolding update_or_create
  update_or_create-IsSoundTable platform row h db s =
      let time = platform.clock db.ticks in
      let new = record row { created = time; modified = time } in
      elim (Option-cases (find_row (key_of row) db.aggregators)) [
        | inl miss ↦ elim (Result-cases (pre_save new)) [
          | inl (e, raised) ↦ rw (miss, raised, update_or_create) s
          | inr (_, valid) ↦
              rw (miss, valid, update_or_create)
                (put_row-IsSoundTable (λ old. new) new db.aggregators h (λ old. h) (λ old e. refl)
                  s)
        ]
        | inr (old, hit) ↦
            let saved = record new { user = old.user; created = old.created } in
            let same_key =
              ap (λ i. record (key_of new) { user_id = i })
                (ap (λ (k : RowKey). k.user_id)
                  (find_row-key_of (key_of row) db.aggregators {row = old} hit)) in
            elim (Result-cases (pre_save saved)) [
              | inl (e, raised) ↦ rw (hit, raised, update_or_create) s
              | inr (_, valid) ↦
                  rw (hit, valid, update_or_create)
                    (put_row-IsSoundTable (λ old'. saved) new db.aggregators h (λ old'. h)
                      (λ old' e. same_key) s)
            ]
      ]

  -- Every write of the manager keeps the table of aggregators sound.
  pub SoundDatabase-KeptByWrites : (platform : Platform) → KeptByWrites platform SoundDatabase
  unfolding emit_completion_aggregator_logs
  SoundDatabase-KeptByWrites platform = record {
    events = λ rows db s. s;
    saved = update_or_create-IsSoundTable platform;
    written = λ db rows values e s.
        execute_many-IsSoundTable values db.aggregators (get_all_values-HasPercent rows e) s;
  }
