-- ===== src/Models.antt =====
-- completion_aggregator/models.py: the tables, the validators and `AggregatorManager`.
--
-- The tables are lists of rows in the order of creation, and a queryset is a filter of one. The
-- argument checks of `AggregatorManager.validate` are what the types of the model state, and the
-- part of `full_clean` that is modelled is the validators that the fields declare.
pub mod Manager
pub mod Table
pub mod Writing
pub mod Preserving
pub mod Soundness
pub mod Abstract
pub mod Vendors
use openedx_completion_aggre.Prelude.{
  ℕ, suc, ◌+◌, String, Bool, true, false, ◌&&◌, Option, none, some, List, [], ◌∷◌, ◌++◌, ◌==◌,
  if◌then◌else◌, str_eq, select, Exception, value_error, validation_error, Result, ok, raise,
}
use openedx_completion_aggre.Float.{Float}
use openedx_completion_aggre.Platform.{Time, CourseKey, BlockKey, User, Settings, Platform, member}
use openedx_completion_aggre.Utils.{get_percent}

pub record Aggregator (F : Type 0) : Type 0 where
  pub user : User
  pub course_key : CourseKey
  pub aggregation_name : String
  pub block_key : BlockKey
  pub earned : F
  pub possible : F
  pub percent : F
  pub last_modified : Time
  pub created : Time
  pub modified : Time

pub record StaleCompletion : Type 0 where
  pub id : ℕ
  pub username : String
  pub course_key : CourseKey
  pub block_key : Option BlockKey
  pub force : Bool
  pub resolved : Bool
  pub modified : Time

pub record CacheGroupInvalidation : Type 0 where
  pub group : CourseKey
  pub invalidated_at : Time

-- `completion.models.BlockCompletion`, with the fields that compat.py names.
pub record BlockCompletion (F : Type 0) : Type 0 where
  pub block_key : BlockKey
  pub completion : F
  pub modified : Time

-- A call of `tracker.emit`: the type of the event, and the record whose fields it carries.
pub record Event (F : Type 0) : Type 0 where
  pub event_type : String
  pub payload : Aggregator F

pub record Database (F : Type 0) : Type 0 where
  pub aggregators : List (Aggregator F)
  pub stale_completions : List StaleCompletion
  pub invalidations : List CacheGroupInvalidation
  pub events : List (Event F)
  -- The id that the next `StaleCompletion` gets.
  pub next_id : ℕ
  -- How often the clock was read.
  pub ticks : ℕ

-- A method that writes to the database and may raise. What was written before stays written.
abbrev pub Query : Type 0 → Type 0 → Type 0
Query F A = Database F → Result A × Database F

module _ {F A B : Type 0} where
  abbrev pub continue : Result A → (A → Query F B) → Query F B
  continue (ok a) f db = f a db
  continue (raise e) f db = (raise e, db)

  infixl 5 ◌>>=◌ ◌>>◌
  abbrev pub ◌>>=◌ : Query F A → (A → Query F B) → Query F B
  ◌>>=◌ m f db = let (r, db') = m db in continue r f db'

  abbrev pub ◌>>◌ : Query F A → Query F B → Query F B
  m >> n = m >>= λ _. n
