-- ===== src/Models/Preserving.antt =====
-- The rule for what every method of models.py keeps: a property of the database that each write of
-- the manager keeps is kept by its methods, whether they return or raise.
use openedx_completion_aggre.Prelude.{
  ℕ, ◌≡◌, refl, sym, subst, arith, inl, inr, Bool, List, [], ◌∷◌, Result, Result-cases, ok, raise,
  if◌then◌else◌, Bool-cases,
}
use openedx_completion_aggre.Float.{Float}
use openedx_completion_aggre.Platform.{Platform}
use openedx_completion_aggre.Utils.{get_percent}
use openedx_completion_aggre.Models
use openedx_completion_aggre.Models.{Aggregator, StaleCompletion, Database, Query, continue}
use openedx_completion_aggre.Models.Manager.{
  update_or_create, emit_completion_aggregator_logs, submit_completion, submit_all, get_all_values,
  execute_many, bulk_create_or_update,
}

module _ {F : Type 0} (P : Database F → Type 0) where
  -- A method that keeps the property, whether it raises or not.
  abbrev pub Preserves : {A : Type 0} → Query F A → Type 0
  Preserves m = (db : Database F) → P db → P (m db).1

  pub Preserves-bind :
      {A B : Type 0} (m : Query F A) (f : A → Query F B)
      → Preserves m
      → ((a : A) → Preserves (f a))
      → Preserves (Models.◌>>=◌ m f)
  Preserves-bind {A = A} m f p q db h = go (m db).0 (m db).1 (p db h)
    where
      go : (r : Result A) (db' : Database F) → P db' → P (continue r f db').1
      go (ok a) db' k = q a db' k
      go (raise e) db' k = k

-- The writes of the manager: events, one row put by `update_or_create`, and the rows of the bulk
-- query.
pub record KeptByWrites {F : Type 0} ⦃fl : Float F⦄ (platform : Platform) (P : Database F → Type 0)
    : Type 0 where
  pub events :
      (rows : List (Aggregator F)) → Preserves P (emit_completion_aggregator_logs platform rows)
  pub saved :
      (row : Aggregator F)
      → get_percent row.earned row.possible ≡ ok row.percent
      → Preserves P (update_or_create platform row)
  pub written :
      (db : Database F) (rows values : List (Aggregator F))
      → get_all_values rows ≡ ok values
      → P db
      → P (record db { aggregators = execute_many values db.aggregators })

module _ {F : Type 0} ⦃fl : Float F⦄ (P : Database F → Type 0) (platform : Platform)
    (k : KeptByWrites platform P) where
  Preserves-submit_completion : (r : Aggregator F) → Preserves P (submit_completion platform r)
  unfolding submit_completion
  Preserves-submit_completion r db h = elim (Result-cases (get_percent r.earned r.possible)) [
    | inl (e, raised) ↦ rw (raised, submit_completion) h
    | inr (percent, found) ↦
        rw (found, submit_completion)
          (Preserves-bind P (update_or_create platform (record r { percent = percent })) _
            (k.saved (record r { percent = percent }) found)
            (λ (a : Aggregator F × Bool).
              Preserves-bind P {B = Aggregator F × Bool}
                (emit_completion_aggregator_logs platform (a.0 ∷ []))
                (λ _ db'. (ok (a.0, a.1), db')) (k.events (a.0 ∷ [])) (λ _ db' p. p))
            db h)
  ]

  Preserves-submit_all : (rows : List (Aggregator F)) → Preserves P (submit_all platform rows)
  unfolding submit_all
  Preserves-submit_all [] db h = h
  Preserves-submit_all (r ∷ rows) db h =
      Preserves-bind P (submit_completion platform r) (λ _. submit_all platform rows)
        (Preserves-submit_completion r) (λ _. Preserves-submit_all rows) db h

  pub Preserves-bulk_create_or_update :
      (rows : List (Aggregator F)) → Preserves P (bulk_create_or_update platform rows)
  unfolding bulk_create_or_update
  Preserves-bulk_create_or_update [] db h = h
  Preserves-bulk_create_or_update (r ∷ rows) db h = elim (Bool-cases platform.sqlite) [
    | inl sqlite ↦ by_vendor sqlite (Preserves-submit_all (r ∷ rows) db h)
    | inr other ↦ by_vendor other (in_bulk_keeps (get_all_values (r ∷ rows)) (λ values e. e))
  ]
    where
      in_bulk : Result (List (Aggregator F)) → Result (Unit {0}) × Database F
      in_bulk res = elim res [
        | raise e ↦ (raise e, db)
        | ok values ↦
            emit_completion_aggregator_logs platform (r ∷ rows)
              (record db { aggregators = execute_many values db.aggregators })
      ]

      in_bulk_keeps :
          (res : Result (List (Aggregator F)))
          → ((values : List (Aggregator F))
              → res ≡ ok values
              → get_all_values (r ∷ rows) ≡ ok values)
          → P (in_bulk res).1
      in_bulk_keeps (raise e) from = h
      in_bulk_keeps (ok values) from =
          k.events (r ∷ rows) _ (k.written db (r ∷ rows) values (from values refl) h)

      by_vendor :
          {b : Bool}
          → platform.sqlite ≡ b
          → P
              (if b
                then submit_all platform (r ∷ rows) db
                else in_bulk (get_all_values (r ∷ rows))).1
          → P (bulk_create_or_update platform (r ∷ rows) db).1
      by_vendor e p =
          subst
            (λ b.
              P
                (if b
                  then submit_all platform (r ∷ rows) db
                  else in_bulk (get_all_values (r ∷ rows))).1)
            (sym e) p

-- A product of two properties is kept where both are.
pub KeptByWrites-both :
    {F : Type 0} ⦃fl : Float F⦄ {platform : Platform} {P Q : Database F → Type 0}
    → KeptByWrites platform P
    → KeptByWrites platform Q
    → KeptByWrites platform (λ db. P db × Q db)
KeptByWrites-both p q = record {
  events = λ rows db (h, k). (p.events rows db h, q.events rows db k);
  saved = λ row e db (h, k). (p.saved row e db h, q.saved row e db k);
  written = λ db rows values e (h, k). (p.written db rows values e h, q.written db rows values e k);
}

module _ {F : Type 0} ⦃fl : Float F⦄ where
  update_or_create-stale_completions :
      (platform : Platform) (r : Aggregator F) (db : Database F)
      → (update_or_create platform r db).1.stale_completions ≡ db.stale_completions
  unfolding update_or_create
  update_or_create-stale_completions platform r db = ground arith

  update_or_create-next_id :
      (platform : Platform) (r : Aggregator F) (db : Database F)
      → (update_or_create platform r db).1.next_id ≡ db.next_id
  unfolding update_or_create
  update_or_create-next_id platform r db = ground arith

  -- The writes of the manager leave the stale completions and their ids alone.
  pub KeptByWrites-stale :
      (platform : Platform) (P : List StaleCompletion → ℕ → Type 0)
      → KeptByWrites platform (λ (db : Database F). P db.stale_completions db.next_id)
  unfolding emit_completion_aggregator_logs
  KeptByWrites-stale platform P = record {
    events = λ rows db h. h;
    saved = λ row e db h.
        subst (λ rows. P rows (update_or_create platform row db).1.next_id)
          (sym (update_or_create-stale_completions platform row db))
          (subst (P db.stale_completions) (sym (update_or_create-next_id platform row db)) h);
    written = λ db rows values e h. h;
  }
