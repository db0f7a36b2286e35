-- ===== src/Stub/Nesting.antt =====
-- How the blocks of `StubCompat` (test_utils/compat.py) nest.
use openedx_completion_aggre.Prelude.{
  ◌+◌, ◌≡◌, sym, ap, ◌∙◌, ◌↔◌, inl, inr, Bool, true, List, [], ◌∷◌, ◌++◌, ◌==◌, ==_iff, length, In,
  In-select, In-select_source, and_intro, and_right, append_assoc, append_nil, ◌⊎◌,
}
use openedx_completion_aggre.Stub.{
  Text, hyphen, segments_eq, split, starts_with, without_last, StubBlock, is_child, get_children,
  get_stub_aggregators,
}
use openedx_completion_aggre.Stub.Segments.{
  segments_eq_iff, join, IsNonempty, split-IsNonempty, join-split, IsBelow, starts_with-IsBelow,
  last_segment, without_last-append, length-append_one,
}

is_child_iff :
    (child parent : StubBlock)
    → (is_child child parent ≡ true)
      ↔ ((s : Text) × (split child.block_id ≡ split parent.block_id ++ s ∷ []))
unfolding is_child
is_child_iff child parent =
    let cs = split child.block_id in
    let ps = split parent.block_id in
    (
      λ h.
          let same =
            (segments_eq_iff (without_last cs) ps).0
              (and_right (length cs == length ps + 1) (segments_eq (without_last cs) ps) h) in
          let (s, e) = last_segment cs (split-IsNonempty child.block_id) in
          (s, e ∙ ap (λ l. l ++ s ∷ []) same),
      λ (s, e).
          and_intro (length cs == length ps + 1) (segments_eq (without_last cs) ps)
            ((==_iff (length cs) (length ps + 1)).1 (ap length e ∙ length-append_one ps s))
            ((segments_eq_iff (without_last cs) ps).1
              (ap without_last e ∙ without_last-append ps s)),
    )

get_stub_aggregators-IsBelow :
    (blocks : List StubBlock) (block agg : StubBlock)
    → In agg (get_stub_aggregators blocks block)
      ↔ (In agg blocks × IsBelow block.block_id agg.block_id)
unfolding get_stub_aggregators
get_stub_aggregators-IsBelow blocks block agg = (
  λ m.
      let (n, h) = In-select_source contains_block agg blocks m in
      (n, (starts_with-IsBelow block.block_id agg.block_id).0 h),
  λ (n, below).
      In-select contains_block agg blocks n
        ((starts_with-IsBelow block.block_id agg.block_id).1 below),
)
  where
    contains_block : StubBlock → Bool
    contains_block a = starts_with block.block_id (a.block_id ++ hyphen ∷ [])

-- Below a child: below its parent, or the parent itself.
IsBelow-child :
    (child parent above : Text) (s : Text)
    → split child ≡ split parent ++ s ∷ []
    → IsBelow child above ↔ ((above ≡ parent) ⊎ IsBelow parent above)
IsBelow-child child parent above s e = (
  λ (more, some_more, e').
      let (l, ends) = last_segment more some_more in
      let before : (split above ++ without_last more) ≡ split parent =
        sym (without_last-append (split above ++ without_last more) l)
        ∙ ap without_last (
            append_assoc (split above) (without_last more) (l ∷ [])
            ∙ ap (λ m. split above ++ m) (sym ends)
            ∙ sym e'
            ∙ e)
        ∙ without_last-append (split parent) s in
      by_rest (without_last more) before,
  λ given. elim given [
    | inl same ↦ (s ∷ [], tt, e ∙ ap (λ t. split t ++ s ∷ []) (sym same))
    | inr (more, some_more, e') ↦ (
      more ++ s ∷ [],
      append-IsNonempty more (s ∷ []) some_more,
      e ∙ ap (λ l. l ++ s ∷ []) e' ∙ append_assoc (split above) more (s ∷ []),
    )
  ],
)
  where
    by_rest :
        (rest : List Text)
        → (split above ++ rest) ≡ split parent
        → (above ≡ parent) ⊎ IsBelow parent above
    by_rest [] h =
        inl (
          sym (join-split above) ∙ ap join (sym (append_nil (split above)) ∙ h) ∙ join-split parent)
    by_rest (r ∷ rest) h = inr (r ∷ rest, tt, sym h)

    append-IsNonempty : (ss ts : List Text) → IsNonempty ss → IsNonempty (ss ++ ts)
    append-IsNonempty [] ts h = absurd h
    append-IsNonempty (r ∷ ss) ts h = tt

-- The aggregators that the stub gives for a child of a block are, among the blocks of the course,
-- exactly the block itself (by its id) and the aggregators of the block.
pub get_children-aggregators :
    (blocks : List StubBlock) (parent child agg : StubBlock)
    → In child (get_children blocks parent)
    → In agg (get_stub_aggregators blocks child) ↔ (
        In agg blocks
        × ((agg.block_id ≡ parent.block_id) ⊎ In agg (get_stub_aggregators blocks parent)))
unfolding get_children
get_children-aggregators blocks parent child agg m =
    let (_, nested) = In-select_source (λ block. is_child block parent) child blocks m in
    let (s, e) = (is_child_iff child parent).0 nested in
    let below = IsBelow-child child.block_id parent.block_id agg.block_id s e in
    let of_child = get_stub_aggregators-IsBelow blocks child agg in
    let of_parent = get_stub_aggregators-IsBelow blocks parent agg in
    (
      λ n.
          let (k, h) = of_child.0 n in
          (k, elim (below.0 h) [ inl same ↦ inl same | inr up ↦ inr (of_parent.1 (k, up)) ]),
      λ (k, given).
          of_child.1
            (k, below.1 (elim given [ inl same ↦ inl same | inr n ↦ inr (of_parent.0 n).1 ])),
    )
