-- ===== src/Stub.antt =====
-- test_utils/compat.py: `StubCompat` and `CompatCourseBlocks`, which stand in for edx-platform. Blocks
-- nest by their ids: the segments of an id, separated by hyphens, extend those of the parent.
--
-- A text is the list of the codes of its characters. What the stub answers with mocks is left out.
pub mod Segments
pub mod Nesting
use openedx_completion_aggre.Prelude.{
  ℕ, zero, suc, ◌+◌, Bool, true, false, ◌&&◌, List, [], ◌∷◌, ◌++◌, ◌==◌, length, select, exists,
  if◌then◌else◌, Result, ok, raise, value_error,
}
use openedx_completion_aggre.Platform.{CourseKey}

abbrev pub Text : Type 0
Text = List ℕ

-- The code of the hyphen.
abbrev pub hyphen : ℕ
hyphen = 45

abbrev pub text_eq : Text → Text → Bool
text_eq [] [] = true
text_eq [] (d ∷ t) = false
text_eq (c ∷ s) [] = false
text_eq (c ∷ s) (d ∷ t) = (c == d) && text_eq s t

abbrev pub segments_eq : List Text → List Text → Bool
segments_eq [] [] = true
segments_eq [] (t ∷ ts) = false
segments_eq (s ∷ ss) [] = false
segments_eq (s ∷ ss) (t ∷ ts) = text_eq s t && segments_eq ss ts

-- Puts a character before the first segment.
abbrev pub extend : ℕ → List Text → List Text
extend c [] = (c ∷ []) ∷ []
extend c (s ∷ ss) = (c ∷ s) ∷ ss

-- `text.split('-')`
unfoldable pub split : Text → List Text
split [] = [] ∷ []
split (c ∷ text) =
    let segments = split text in if c == hyphen then [] ∷ segments else extend c segments

-- `text.startswith(prefix)`
unfoldable pub starts_with : Text → Text → Bool
starts_with text [] = true
starts_with [] (c ∷ prefix) = false
starts_with (d ∷ text) (c ∷ prefix) = (d == c) && starts_with text prefix

-- `segments[:-1]`
abbrev pub without_last : List Text → List Text
without_last [] = []
without_last (s ∷ []) = []
without_last (s ∷ t ∷ ts) = s ∷ without_last (t ∷ ts)

-- `segments[:n]`
abbrev pub first_segments : ℕ → List Text → List Text
first_segments zero segments = []
first_segments (suc n) [] = []
first_segments (suc n) (s ∷ ss) = s ∷ first_segments n ss

-- A usage key of a stub course.
pub record StubBlock : Type 0 where
  pub course_key : CourseKey
  pub block_type : Text
  pub block_id : Text

-- `CompatCourseBlocks.is_child`
unfoldable pub is_child : StubBlock → StubBlock → Bool
unfolding split
is_child child parent =
    let parent_segments = split parent.block_id in
    let child_segments = split child.block_id in
    (length child_segments == length parent_segments + 1)
    && segments_eq (without_last child_segments) parent_segments

-- `StubCompat.get_children`
unfoldable pub get_children : List StubBlock → StubBlock → List StubBlock
unfolding is_child
get_children blocks block_key = select (λ block. is_child block block_key) blocks

-- `StubCompat.get_block_aggregators`
unfoldable pub get_stub_aggregators : List StubBlock → StubBlock → List StubBlock
unfolding starts_with
get_stub_aggregators blocks block =
    select (λ agg. starts_with block.block_id (agg.block_id ++ hyphen ∷ [])) blocks

-- The codes of "course".
abbrev pub course_text : Text
course_text = 99 ∷ 111 ∷ 117 ∷ 114 ∷ 115 ∷ 101 ∷ []

-- `StubCompat.init_course_block_key`; `get_item_not_found_error` is `ValueError`.
unfoldable pub stub_course_block_key : List StubBlock → CourseKey → Result StubBlock
stub_course_block_key blocks course_key =
    if exists (λ block. block.course_key == course_key) blocks
    then ok (record { course_key = course_key; block_type = course_text; block_id = course_text })
    else raise value_error

-- `StubCompat.init_course_blocks`
unfoldable pub stub_course_blocks : List StubBlock → StubBlock → List StubBlock
unfolding split
stub_course_blocks blocks root =
    let root_segments = split root.block_id in
    select
      (λ block.
        segments_eq (first_segments (length root_segments) (split block.block_id)) root_segments)
      blocks
