-- ===== src/Core/Structure.antt =====
-- `AggregationUpdater.format_course_blocks`: the block structure of the LMS as a dictionary.
pub mod Reachable
use openedx_completion_aggre.Prelude.{
  ℕ, zero, suc, Option, none, some, List, [], ◌∷◌, Dict, lookup, insert, Result, ok, raise,
  recursion_error, ◌>>=◌,
}
use openedx_completion_aggre.Platform.{BlockKey}
use openedx_completion_aggre.Core.{CourseBlocksEntry}

-- `BlockStructure` of edx-platform, as compat.py reads it: the children of a block, and the field
-- that `AggregatorAnnotationTransformer` sets.
pub record BlockStructure : Type 0 where
  pub children_of : BlockKey → List BlockKey
  pub aggregators_field : BlockKey → Option (List BlockKey)

-- `compat.get_block_aggregators`
unfoldable pub get_block_aggregators : BlockStructure → BlockKey → List BlockKey
get_block_aggregators course_blocks block = elim (course_blocks.aggregators_field block) [
  | none ↦ []
  | some aggregators ↦ aggregators
]

unfoldable pub entry_of : BlockStructure → BlockKey → CourseBlocksEntry
unfolding get_block_aggregators
entry_of course_blocks block = record {
  children = course_blocks.children_of block;
  aggregators = get_block_aggregators course_blocks block;
}

unfoldable pub populate_all :
    (BlockKey → Dict CourseBlocksEntry → Result (Dict CourseBlocksEntry))
    → List BlockKey
    → Dict CourseBlocksEntry
    → Result (Dict CourseBlocksEntry)
populate_all visit [] structure = ok structure
populate_all visit (child ∷ rest) structure = do
  structure' ← visit child structure
  populate_all visit rest structure'

unfoldable pub populate :
    BlockStructure → ℕ → BlockKey → Dict CourseBlocksEntry → Result (Dict CourseBlocksEntry)
populate course_blocks zero block structure = raise recursion_error
populate course_blocks (suc limit) block structure = elim (lookup block structure) [
  | some entry ↦ ok structure
  | none ↦
      populate_all (populate course_blocks limit) (entry_of course_blocks block).children
        (insert block (entry_of course_blocks block) structure)
]

unfoldable pub format_course_blocks :
    BlockStructure → ℕ → BlockKey → Result (Dict CourseBlocksEntry)
unfolding populate
format_course_blocks course_blocks limit root_block = populate course_blocks limit root_block []
