-- ===== src/Transformer.antt =====
-- completion_aggregator/transformers.py: `AggregatorAnnotationTransformer`.
pub mod Parents
pub mod Annotation
use openedx_completion_aggre.Prelude.{
  Option, none, some, List, [], ◌∷◌, Dict, lookup, insert, add, union, Result, ok, raise,
  type_error, ◌>>=◌,
}
use openedx_completion_aggre.Platform.{
  BlockKey, CompletionMode, excluded, completable, aggregator, unknown,
}

-- The block structure of edx-platform that is transformed.
pub record BlockGraph : Type 0 where
  pub get_parents : BlockKey → List BlockKey
  -- The field `completion_mode` of the block; `none` where it is missing.
  pub mode_field : BlockKey → Option CompletionMode
  pub topological_traversal : List BlockKey

-- The mode, `COMPLETABLE` by default.
unfoldable pub mode_of : BlockGraph → BlockKey → CompletionMode
mode_of graph block = elim (graph.mode_field block) [ none ↦ completable | some mode ↦ mode ]

-- `aggregators.update(self.get_block_aggregators(block_structure, parent))`, which raises where
-- the parent has no annotation.
unfoldable pub add_annotation :
    Dict (List BlockKey) → BlockKey → List BlockKey → Result (List BlockKey)
add_annotation fields parent aggregators = elim (lookup parent fields) [
  | none ↦ raise type_error
  | some above ↦ ok (union aggregators above)
]

-- The round of the loop over the parents.
unfoldable pub add_parent :
    BlockGraph → Dict (List BlockKey) → BlockKey → List BlockKey → Result (List BlockKey)
unfolding add_annotation
add_parent graph fields parent aggregators = elim (mode_of graph parent) [
  | excluded ↦ ok aggregators
  | aggregator ↦ add_annotation fields parent (add parent aggregators)
  | _ ↦ add_annotation fields parent aggregators
]

unfoldable pub add_parents :
    BlockGraph → Dict (List BlockKey) → List BlockKey → List BlockKey → Result (List BlockKey)
add_parents graph fields [] aggregators = ok aggregators
add_parents graph fields (parent ∷ rest) aggregators = do
  aggregators' ← add_parent graph fields parent aggregators
  add_parents graph fields rest aggregators'

unfoldable pub calculate_aggregators :
    BlockGraph → Dict (List BlockKey) → BlockKey → Result (List BlockKey)
unfolding add_parents add_parent
calculate_aggregators graph fields block = add_parents graph fields (graph.get_parents block) []

-- The loop of `transform`; `fields` holds the annotations that have been set.
unfoldable pub annotate :
    BlockGraph → List BlockKey → Dict (List BlockKey) → Result (Dict (List BlockKey))
annotate graph [] fields = ok fields
annotate graph (block ∷ rest) fields = elim (mode_of graph block) [
  | excluded ↦ annotate graph rest fields
  | _ ↦ do
    aggregators ← calculate_aggregators graph fields block
    annotate graph rest (insert block aggregators fields)
]

unfoldable pub transform : BlockGraph → Result (Dict (List BlockKey))
unfolding annotate calculate_aggregators
transform graph = annotate graph graph.topological_traversal []
