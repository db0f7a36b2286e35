-- ===== src/Serializers/Response.antt =====
-- The serializers of completion_aggregator/serializers.py: which fields a response has, and what they
-- show of an adapter.
use openedx_completion_aggre.Prelude.{
  String, Option, none, some, List, [], ◌∷◌, map, select, if◌then◌else◌, str_eq, type_error, Result,
  ok, raise, ◌>>=◌,
}
use openedx_completion_aggre.Float.{Float}
use openedx_completion_aggre.Platform.{CourseKey, BlockKey, Platform, member}
use openedx_completion_aggre.Models.{Aggregator}
use openedx_completion_aggre.Serializers.{AggregatorAdapter, is_aggregation_name, getattr, course}

-- `_CompletionSerializer`, or `_CompletionSerializerV0`, which has a ratio.
pub record CompletionFields (F : Type 0) : Type 0 where
  pub earned : F
  pub possible : Option F
  pub percent : F
  pub ratio : Option F

-- `BlockCompletionSerializer`
pub record BlockFields (F : Type 0) : Type 0 where
  pub course_key : CourseKey
  pub block_key : BlockKey
  pub completion : CompletionFields F

-- `CourseCompletionSerializer` with the fields that the factory adds; a field that is left out of the
-- response is `none`.
pub record CourseFields (F : Type 0) : Type 0 where
  pub course_key : CourseKey
  pub completion : CompletionFields F
  pub username : Option String
  pub mean : Option F
  pub blocks : List (String × List (BlockFields F))

-- The version of the API.
pub data Version : Type 0 where
  v0 v1 : Version

-- `CourseCompletionSerializer.__init__` deletes the optional fields that are not requested.
abbrev pub optional : {A : Type 0} → String → List String → A → Option A
optional field requested_fields value = if member field requested_fields then some value else none

module _ {F : Type 0} where
  -- `get_ratio`, in version 0 only.
  abbrev pub get_ratio : Version → F → Option F
  get_ratio v0 percent = some percent
  get_ratio v1 percent = none

  unfoldable pub serialize_block : Version → Aggregator F → BlockFields F
  serialize_block version row = record {
    course_key = row.course_key;
    block_key = row.block_key;
    completion = record {
      earned = row.earned;
      possible = some row.possible;
      percent = row.percent;
      ratio = get_ratio version row.percent;
    };
  }

  -- The attribute that a nested serializer reads: for "course" it is the property of that name, whose
  -- value is one aggregator and no sequence.
  unfoldable pub read_rows : Platform → AggregatorAdapter F → String → Result (List (Aggregator F))
  unfolding getattr
  read_rows platform adapter name =
      if str_eq name "course" then raise type_error else getattr platform adapter name

  -- The nested serializers: one for each requested aggregation name.
  unfoldable pub serialize_blocks :
      Platform
      → Version
      → AggregatorAdapter F
      → List String
      → Result (List (String × List (BlockFields F)))
  unfolding serialize_block read_rows
  serialize_blocks platform version adapter [] = ok []
  serialize_blocks platform version adapter (name ∷ names) = do
    rows ← read_rows platform adapter name
    rest ← serialize_blocks platform version adapter names
    ok ((name, map (serialize_block version) rows) ∷ rest)

module _ {F : Type 0} ⦃fl : Float F⦄ where
  -- The fields of the response, given the nested ones.
  abbrev pub course_fields :
      Version
      → List String
      → F
      → AggregatorAdapter F
      → List (String × List (BlockFields F))
      → CourseFields F
  course_fields version requested_fields mean adapter blocks = record {
    course_key = adapter.course_key;
    completion = record {
      earned = (course adapter).earned;
      possible = (course adapter).possible;
      percent = (course adapter).percent;
      ratio = get_ratio version (course adapter).percent;
    };
    username = optional "username" requested_fields adapter.user.username;
    mean = optional "mean" requested_fields mean;
    blocks = blocks;
  }

  -- The serializer of `course_completion_serializer_factory` at work on an adapter; `mean` is what
  -- `get_mean` answers.
  unfoldable pub serialize_course :
      Platform → Version → List String → F → AggregatorAdapter F → Result (CourseFields F)
  unfolding serialize_blocks course
  serialize_course platform version requested_fields mean adapter = do
    blocks ←
        serialize_blocks platform version adapter
          (select (is_aggregation_name platform) requested_fields)
    ok (course_fields version requested_fields mean adapter blocks)
