-- ===== src/Platform.antt =====
-- What the program takes from outside the repository: the identifiers of `opaque_keys`, the XBlock
-- registry, the clock and the Django settings (completion_aggregator/settings/common.py).
use openedx_completion_aggre.Prelude.{ℕ, String, Bool, false, ◌||◌, Option, List, [], ◌∷◌, str_eq}

-- Datetimes are numbers of microseconds since `OLD_DATETIME`.
abbrev pub Time : Type 0
Time = ℕ

-- Course and usage keys are identifiers that the program compares, prints and parses.
abbrev pub CourseKey : Type 0
CourseKey = ℕ

abbrev pub BlockKey : Type 0
BlockKey = ℕ

pub record User : Type 0 where
  pub id : ℕ
  pub username : String

-- `XBlockCompletionMode`; `unknown` is a value that is none of its three.
pub data CompletionMode : Type 0 where
  excluded completable aggregator unknown : CompletionMode

-- An XBlock class; `none` is a class without the attribute.
pub record XBlockClass : Type 0 where
  pub completion_mode : Option CompletionMode

pub record Settings : Type 0 where
  pub block_types : List String
  pub tracking_event_types : List String
  pub async_aggregation : Bool

pub record Platform : Type 0 where
  pub settings : Settings
  -- `connection.vendor == 'sqlite'`
  pub sqlite : Bool
  -- `XBlock.load_class`; `none` is `PluginMissingError`.
  pub load_class : String → Option XBlockClass
  -- `XBlockCompletionMode.get_mode`
  pub get_mode : XBlockClass → CompletionMode
  -- `block_key.block_type`
  pub block_type : BlockKey → String
  -- `block_key.map_into_course(course_key)`
  pub map_into_course : BlockKey → CourseKey → BlockKey
  -- How deep recursive calls may nest before `RecursionError`.
  pub recursion_limit : ℕ
  -- The n-th reading of `timezone.now()`.
  pub clock : ℕ → Time

-- `name in names`
abbrev pub member : String → List String → Bool
member name [] = false
member name (x ∷ xs) = str_eq name x || member name xs
