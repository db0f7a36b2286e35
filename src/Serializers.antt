-- ===== src/Serializers.antt =====
-- completion_aggregator/serializers.py: `AggregatorAdapter`, and the mean of a course. The fields
-- that the serializers copy into a response are left to the REST framework.
pub mod Adding
pub mod Owning
pub mod Response
pub mod Presenting
pub mod Recalculating
use openedx_completion_aggre.Prelude.{
  ℕ, ◌+◌, String, Bool, true, false, ◌&&◌, ◌||◌, not, Option, none, some, List, [], ◌∷◌, ◌++◌, ◌==◌,
  exists, length, select, str_eq, if◌then◌else◌, Exception, value_error, attribute_error, Result,
  ok, raise, ◌>>=◌,
}
use openedx_completion_aggre.Float.{Float}
use openedx_completion_aggre.Platform.{
  CourseKey, BlockKey, User, CompletionMode, excluded, completable, aggregator, unknown,
  XBlockClass, Platform,
}
use openedx_completion_aggre.Models.{Aggregator, StaleCompletion, Database}
use openedx_completion_aggre.Core.Updater.{CacheEntry, Lms, calculate_updated_aggregators}

-- The mode of a class, `COMPLETABLE` where it has none.
unfoldable pub get_completion_mode : XBlockClass → CompletionMode
get_completion_mode block = elim block.completion_mode [ none ↦ completable | some mode ↦ mode ]

unfoldable pub is_aggregation_name : Platform → String → Bool
unfolding get_completion_mode
is_aggregation_name platform category = elim (platform.load_class category) [
  | none ↦ false
  | some cls ↦ elim (get_completion_mode cls) [ aggregator ↦ true | _ ↦ false ]
]

-- `self.aggregators`, a `defaultdict(list)` from aggregation names.
abbrev pub ByName : Type 0 → Type 0
ByName F = List (String × List (Aggregator F))

pub record AggregatorAdapter (F : Type 0) : Type 0 where
  pub user : User
  pub course_key : CourseKey
  pub aggregators : ByName F

-- What `course` returns, as far as it is read; `possible` is `none` in the dummy.
pub record CourseCompletion (F : Type 0) : Type 0 where
  pub earned : F
  pub possible : Option F
  pub percent : F

-- The query of `__init__`.
unfoldable pub is_stale : User → CourseKey → List StaleCompletion → Bool
is_stale user course_key rows =
    exists
      (λ stale.
        not stale.resolved
        && (str_eq stale.username user.username && (stale.course_key == course_key)))
      rows

module _ {F : Type 0} where
  -- `self.aggregators.get(name, [])`
  unfoldable pub get_named : String → ByName F → List (Aggregator F)
  get_named name [] = []
  get_named name ((key, rows) ∷ rest) = if str_eq key name then rows else get_named name rest

  -- `self.aggregators[name].append(row)`
  unfoldable pub append_named : String → Aggregator F → ByName F → ByName F
  append_named name row [] = (name, row ∷ []) ∷ []
  append_named name row ((key, rows) ∷ rest) =
      if str_eq key name
      then (key, rows ++ row ∷ []) ∷ rest
      else (key, rows) ∷ append_named name row rest

  -- `AggregatorAdapter.__getattr__`
  unfoldable pub getattr : Platform → AggregatorAdapter F → String → Result (List (Aggregator F))
  unfolding is_aggregation_name get_named
  getattr platform adapter name =
      if is_aggregation_name platform name
      then ok (get_named name adapter.aggregators)
      else raise attribute_error

  -- Whether an aggregator is one of the adapter's enrollment.
  abbrev pub belongs : User → CourseKey → Aggregator F → Bool
  belongs user course_key row = (row.user.id == user.id) && (row.course_key == course_key)

  unfoldable pub add_aggregator :
      Platform → Aggregator F → AggregatorAdapter F → Result (AggregatorAdapter F)
  unfolding is_aggregation_name append_named
  add_aggregator platform row adapter =
      if belongs adapter.user adapter.course_key row
      then ok (
          if is_aggregation_name platform row.aggregation_name
          then record adapter {
            aggregators = append_named row.aggregation_name row adapter.aggregators;
          }
          else adapter)
      else raise value_error

  unfoldable pub add_all :
      Platform → List (Aggregator F) → AggregatorAdapter F → Result (AggregatorAdapter F)
  unfolding add_aggregator
  add_all platform [] adapter = ok adapter
  add_all platform (row ∷ rows) adapter = do
    adapter' ← add_aggregator platform row adapter
    add_all platform rows adapter'

module _ {F : Type 0} ⦃fl : Float F⦄ where
  unfoldable pub adapter_update_aggregators :
      Platform
      → Lms F
      → Option CacheEntry
      → Database F
      → List (Aggregator F)
      → Option BlockKey
      → Bool
      → AggregatorAdapter F
      → Result (AggregatorAdapter F)
  unfolding add_all calculate_updated_aggregators
  adapter_update_aggregators platform lms cached db rows root_block stale adapter =
      if stale
      then (do
        (updated, _) ←
            calculate_updated_aggregators platform lms cached adapter.user adapter.course_key []
              root_block true db
        add_all platform updated adapter)
      else add_all platform rows adapter

  -- `AggregatorAdapter.__init__`
  unfoldable pub adapter_init :
      Platform
      → Lms F
      → Option CacheEntry
      → Database F
      → User
      → CourseKey
      → List (Aggregator F)
      → Option BlockKey
      → Bool
      → Result (AggregatorAdapter F)
  unfolding adapter_update_aggregators is_stale
  adapter_init platform lms cached db user course_key rows root_block recalculate_stale =
      adapter_update_aggregators platform lms cached db rows root_block
        (recalculate_stale && is_stale user course_key db.stale_completions)
        (record { user = user; course_key = course_key; aggregators = [] })

  unfoldable pub course : AggregatorAdapter F → CourseCompletion F
  unfolding get_named
  course adapter = elim (get_named "course" adapter.aggregators) [
    | row ∷ _ ↦ record { earned = row.earned; possible = some row.possible; percent = row.percent }
    | [] ↦ record { earned = fl.nought; possible = none; percent = fl.nought }
  ]

  -- `Sum(Coalesce('percent', Value(0.)))`; no row has a null percentage.
  unfoldable pub sum_percent : List (Aggregator F) → F
  sum_percent [] = fl.nought
  sum_percent (row ∷ rows) = fl.plus row.percent (sum_percent rows)

  -- `_calculate_mean`: `enrolled` is what `get_users_enrolled_in` answers, and `has_role` tells
  -- whether a user has a `CourseAccessRole` in the course.
  unfoldable pub calculate_mean :
      (CourseKey → List User) → (User → CourseKey → Bool) → CourseKey → Database F → F
  unfolding sum_percent
  calculate_mean enrolled has_role course_key db =
      let count = length (select (λ user. not (has_role user course_key)) (enrolled course_key)) in
      let total = sum_percent (
        select
          (λ (row : Aggregator F).
            (row.course_key == course_key)
            && (str_eq row.aggregation_name "course" && not (has_role row.user course_key)))
          db.aggregators) in
      if count == 0 then fl.nought else fl.over total (fl.of_int count)

  -- `get_mean`: the cached mean, or the one that is calculated and then cached.
  unfoldable pub get_mean : Option F → F → F × Option F
  get_mean (some mean) calculated = (mean, some mean)
  get_mean none calculated = (calculated, some calculated)
