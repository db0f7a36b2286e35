-- ===== src/Examples/Structures.antt =====
-- Block structures of a few blocks.
use openedx_completion_aggre.Prelude.{
  ℕ, ◌-◌, ◌<◌, ◌≡◌, ◌≢◌, ◌↔◌, ap, inl, inr, Bool-cases, List, [], ◌∷◌, In, elem, Dict, lookup, some,
  none, true, ok, ◌==◌, if◌then◌else◌, arith, subst,
}
use openedx_completion_aggre.Platform.{BlockKey, aggregator, excluded}
use openedx_completion_aggre.Core.{CourseBlocksEntry}
use openedx_completion_aggre.Core.Structure.{BlockStructure, entry_of, format_course_blocks}
use openedx_completion_aggre.Core.Structure.Reachable.{Below, format_course_blocks-Below}
use openedx_completion_aggre.Transformer.{BlockGraph, mode_of, transform}
use openedx_completion_aggre.Transformer.Parents.{Contains}
use openedx_completion_aggre.Transformer.Annotation.{ParentsFirst, transform-IsRight}

-- Block 1 has the children 2 and 3, and block 2 the child 4.
abbrev children : BlockKey → List BlockKey
children k = if k == 1 then 2 ∷ 3 ∷ [] else if k == 2 then 4 ∷ [] else []

abbrev structure : BlockStructure
structure = record { children_of = children; aggregators_field = λ k. none }

abbrev rank : BlockKey → ℕ
rank k = 10 - k

structure_acyclic : (b c : BlockKey) → In c (entry_of structure b).children → rank c < rank b
unfolding entry_of
structure_acyclic b c m = elim (Bool-cases (b == 1)) [
  | inl one ↦
      elim (subst (In c) (ap (λ x. if x then 2 ∷ 3 ∷ [] else if b == 2 then 4 ∷ [] else []) one)
        m) [
          | inl e ↦ ground (arith, one)
          | inr n ↦ elim n [ inl e ↦ ground (arith, one) | inr bad ↦ elim bad [ ] ]
        ]
  | inr other ↦ elim (Bool-cases (b == 2)) [
    | inl two ↦ ground (arith, m, two, other)
    | inr leaf ↦ ground (arith, m, leaf, other)
  ]
]

format_course_blocks-Below_example :
    (blocks : Dict CourseBlocksEntry) × (format_course_blocks structure 100 1 ≡ ok blocks)
    × ((k : BlockKey) → Below structure 1 k → lookup k blocks ≡ some (entry_of structure k))
    × ((k : BlockKey) (e : CourseBlocksEntry)
        → lookup k blocks ≡ some e
        → Below structure 1 k × (e ≡ entry_of structure k))
format_course_blocks-Below_example =
    format_course_blocks-Below structure rank structure_acyclic 100 1 (omega arith)

-- The same blocks as a graph, with 1 and 2 aggregators.
abbrev graph : BlockGraph
graph = record {
  get_parents =
      λ k. if k == 2 then 1 ∷ [] else if k == 3 then 1 ∷ [] else if k == 4 then 2 ∷ [] else [];
  mode_field = λ k. if k == 1 then some aggregator else if k == 2 then some aggregator else none;
  topological_traversal = 1 ∷ 2 ∷ 3 ∷ 4 ∷ [];
}

graph-ParentsFirst : ParentsFirst graph [] (1 ∷ 2 ∷ 3 ∷ 4 ∷ [])
graph-ParentsFirst = (
  λ p m. m,
  (λ p m. m, (λ p m. inr m, (λ p m. elim m [ inl e ↦ inr (inl e) | inr bad ↦ elim bad [ ] ], tt))),
)

transform-IsRight_example :
    (fields : Dict (List BlockKey)) × (transform graph ≡ ok fields)
    × ((block : BlockKey)
        → In block (1 ∷ 2 ∷ 3 ∷ 4 ∷ [])
        → mode_of graph block ≢ excluded
        → (aggregators : List BlockKey) × (lookup block fields ≡ some aggregators)
          × ((a : BlockKey) → (elem a aggregators ≡ true) ↔ Contains graph a block))
transform-IsRight_example = transform-IsRight graph graph-ParentsFirst
