-- ===== src/Models/Manager.antt =====
-- `AggregatorManager` and the validators of completion_aggregator/models.py.
use openedx_completion_aggre.Prelude.{
  ℕ, ◌+◌, String, Bool, true, false, ◌&&◌, Option, none, some, List, [], ◌∷◌, ◌++◌, ◌==◌,
  if◌then◌else◌, str_eq, validation_error, type_error, Result, ok, raise, ◌>>=◌ as and_then,
}
use openedx_completion_aggre.Float.{Float}
use openedx_completion_aggre.Platform.{CourseKey, BlockKey, Platform, member}
use openedx_completion_aggre.Utils.{get_percent}
use openedx_completion_aggre.Models.{Aggregator, Event, Query, ◌>>=◌, ◌>>◌}

-- `Aggregator.Meta.unique_together`
pub record RowKey : Type 0 where
  pub user_id : ℕ
  pub course_key : CourseKey
  pub block_key : BlockKey
  pub aggregation_name : String

abbrev pub key_eq : RowKey → RowKey → Bool
key_eq a b =
    (a.user_id == b.user_id)
    && ((a.course_key == b.course_key)
        && ((a.block_key == b.block_key) && str_eq a.aggregation_name b.aggregation_name))

-- An argument of `validate`, as far as its type is tested.
pub data Argument : Type 0 where
  a_user a_course_key a_usage_key another : Argument

-- `AggregatorManager.validate`; the fields of an updater are of the three types.
unfoldable pub validate : Argument → Argument → Argument → Result (Unit {0})
validate a_user a_course_key a_usage_key = ok tt
validate _ _ _ = raise type_error

module _ {F : Type 0} where
  abbrev pub key_of : Aggregator F → RowKey
  key_of row = record {
    user_id = row.user.id;
    course_key = row.course_key;
    block_key = row.block_key;
    aggregation_name = row.aggregation_name;
  }

  -- The row with a unique key.
  unfoldable pub find_row : RowKey → List (Aggregator F) → Option (Aggregator F)
  find_row k [] = none
  find_row k (row ∷ rows) = if key_eq (key_of row) k then some row else find_row k rows

  -- Changes the row with the key of `row`, or adds `row`.
  unfoldable pub put_row :
      (Aggregator F → Aggregator F) → Aggregator F → List (Aggregator F) → List (Aggregator F)
  put_row change row [] = row ∷ []
  put_row change row (old ∷ rows) =
      if key_eq (key_of old) (key_of row) then change old ∷ rows else old ∷ put_row change row rows

  -- `emit_completion_aggregator_logs`: an empty or missing setting emits nothing.
  unfoldable pub events_of : List String → List (Aggregator F) → List (Event F)
  events_of types [] = []
  events_of types (row ∷ rows) =
      let rest = events_of types rows in
      if member row.aggregation_name types
      then record { event_type = row.aggregation_name; payload = row } ∷ rest
      else rest

  unfoldable pub emit_completion_aggregator_logs :
      Platform → List (Aggregator F) → Query F (Unit {0})
  unfolding events_of
  emit_completion_aggregator_logs platform rows db = (
    ok tt,
    record db { events = db.events ++ events_of platform.settings.tracking_event_types rows },
  )

module _ {F : Type 0} ⦃fl : Float F⦄ where
  unfoldable pub validate_percent : F → Result (Unit {0})
  validate_percent value =
      if fl.le fl.nought value && fl.le value fl.unit then ok tt else raise validation_error

  unfoldable pub validate_positive_float : F → Result (Unit {0})
  validate_positive_float value = if fl.lt value fl.nought then raise validation_error else ok tt

  -- The validators that the fields of `Aggregator` declare, which `pre_save` runs.
  unfoldable pub pre_save : Aggregator F → Result (Unit {0})
  unfolding validate_percent validate_positive_float
  pre_save row =
      and_then (validate_positive_float row.earned)
        λ _. and_then (validate_positive_float row.possible) λ _. validate_percent row.percent

  -- `update_or_create` by the unique key: the saved object, and whether it is new.
  unfoldable pub update_or_create : Platform → Aggregator F → Query F (Aggregator F × Bool)
  unfolding pre_save find_row put_row
  update_or_create platform row db =
      let time = platform.clock db.ticks in
      let new = record row { created = time; modified = time } in
      elim (find_row (key_of row) db.aggregators) [
        | none ↦ elim (pre_save new) [
          | raise e ↦ (raise e, db)
          | ok _ ↦ (
            ok (new, true),
            record db {
              aggregators = put_row (λ old. new) new db.aggregators;
              ticks = db.ticks + 1;
            },
          )
        ]
        | some old ↦
            let saved = record new { user = old.user; created = old.created } in
            elim (pre_save saved) [
              | raise e ↦ (raise e, db)
              | ok _ ↦ (
                ok (saved, false),
                record db {
                  aggregators = put_row (λ old'. saved) new db.aggregators;
                  ticks = db.ticks + 1;
                },
              )
            ]
      ]

  -- `row` carries the arguments; its percentage and its two timestamps are not read.
  unfoldable pub submit_completion : Platform → Aggregator F → Query F (Aggregator F × Bool)
  unfolding get_percent update_or_create emit_completion_aggregator_logs
  submit_completion platform row db = elim (get_percent row.earned row.possible) [
    | raise e ↦ (raise e, db)
    | ok percent ↦
        (do
          (obj, is_new) ← update_or_create platform (record row { percent = percent })
          emit_completion_aggregator_logs platform (obj ∷ [])
          λ db'. (ok (obj, is_new), db'))
          db
  ]

  -- The values of the bulk query: the percentage is computed again.
  unfoldable pub get_values : Aggregator F → Result (Aggregator F)
  unfolding get_percent
  get_values row =
      and_then (get_percent row.earned row.possible)
        λ percent. ok (record row { percent = percent })

  unfoldable pub get_all_values : List (Aggregator F) → Result (List (Aggregator F))
  get_all_values [] = ok []
  get_all_values (row ∷ rows) =
      and_then (get_values row) λ values. and_then (get_all_values rows) λ rest. ok (values ∷ rest)

  -- INSERT_OR_UPDATE_AGGREGATOR_QUERY
  abbrev pub on_duplicate : Aggregator F → Aggregator F → Aggregator F
  on_duplicate values old = record old {
    earned = values.earned;
    possible = values.possible;
    percent = values.percent;
    last_modified = values.last_modified;
    modified = values.modified;
  }

  unfoldable pub execute_many : List (Aggregator F) → List (Aggregator F) → List (Aggregator F)
  unfolding put_row
  execute_many [] rows = rows
  execute_many (values ∷ rest) rows = execute_many rest (put_row (on_duplicate values) values rows)

  unfoldable pub submit_all : Platform → List (Aggregator F) → Query F (Unit {0})
  unfolding submit_completion
  submit_all platform [] db = (ok tt, db)
  submit_all platform (row ∷ rows) db =
      (submit_completion platform row >> submit_all platform rows) db

  unfoldable pub bulk_create_or_update : Platform → List (Aggregator F) → Query F (Unit {0})
  unfolding submit_all get_all_values execute_many emit_completion_aggregator_logs
  bulk_create_or_update platform [] db = (ok tt, db)
  bulk_create_or_update platform (row ∷ rows) db =
      if platform.sqlite
      then submit_all platform (row ∷ rows) db
      else elim (get_all_values (row ∷ rows)) [
        | raise e ↦ (raise e, db)
        | ok values ↦
            emit_completion_aggregator_logs platform (row ∷ rows)
              (record db { aggregators = execute_many values db.aggregators })
      ]
