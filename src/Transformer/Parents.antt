-- ===== src/Transformer/Parents.antt =====
-- What the parents of a block contribute to its annotation.
use openedx_completion_aggre.Prelude.{
  ◌≡◌, refl, sym, subst, ◌⊎◌, inl, inr, ◌≢◌, ◌↔◌, true, some, List, [], ◌∷◌, ==_iff, In, elem, add,
  union, elem-add, elem-union, Dict, lookup, ok, arith,
}
use openedx_completion_aggre.Platform.{
  BlockKey, CompletionMode, excluded, completable, aggregator, unknown,
}
use openedx_completion_aggre.Transformer.{
  BlockGraph, mode_of, add_annotation, add_parent, add_parents, calculate_aggregators,
}

-- The aggregator `a` contains the block: it is a parent, or contains a parent that is not excluded.
pub data Contains (graph : BlockGraph) (a : BlockKey) : BlockKey → Type 0 where
  direct :
      {block : BlockKey}
      → In a (graph.get_parents block)
      → mode_of graph a ≡ aggregator
      → Contains graph a block
  indirect :
      {block p : BlockKey}
      → In p (graph.get_parents block)
      → mode_of graph p ≢ excluded
      → Contains graph a p
      → Contains graph a block

add_annotation-found :
    (fields : Dict (List BlockKey)) (p : BlockKey) (acc aggregators : List BlockKey)
    → lookup p fields ≡ some aggregators
    → add_annotation fields p acc ≡ ok (union acc aggregators)
unfolding add_annotation
add_annotation-found fields p acc aggregators found = rw (found, add_annotation)

module _ (graph : BlockGraph) where
  -- The annotation `aggregators` is right for a block.
  abbrev pub IsRight : List BlockKey → BlockKey → Type 0
  IsRight aggregators block = (a : BlockKey) → (elem a aggregators ≡ true) ↔ Contains graph a block

  -- What one parent contributes.
  abbrev From : BlockKey → BlockKey → Type 0
  From a p =
      (a ≡ p) × (mode_of graph p ≡ aggregator) ⊎ (mode_of graph p ≢ excluded) × Contains graph a p

  abbrev Adds : Dict (List BlockKey) → BlockKey → List BlockKey → Type 0
  Adds fields p acc =
      (acc' : List BlockKey) × (add_parent graph fields p acc ≡ ok acc')
      × ((a : BlockKey) → (elem a acc' ≡ true) ↔ ((elem a acc ≡ true) ⊎ From a p))

  module _ (fields : Dict (List BlockKey)) (p : BlockKey) (acc : List BlockKey) where
    Adds-excluded : mode_of graph p ≡ excluded → Adds fields p acc
    unfolding add_parent
    Adds-excluded e = (
      acc,
      rw (e, add_parent),
      λ a. (
        inl,
        λ x. elim x [
          | inl h ↦ h
          | inr from ↦ elim from [ inl (_, q) ↦ cc | inr (q, _) ↦ absurd (q e) ]
        ],
      ),
    )

    module _ (above : List BlockKey) (found : lookup p fields ≡ some above)
        (right : IsRight above p) where
      Adds-aggregator : mode_of graph p ≡ aggregator → Adds fields p acc
      unfolding add_parent
      Adds-aggregator e = (
        union (add p acc) above,
        rw (e, add_parent) (add_annotation-found fields p (add p acc) above found),
        λ a. (
          (λ h. ground (
            arith,
            elem-union a (add p acc) above,
            elem-add a p acc,
            ==_iff a p,
            right a,
            not_excluded,
          )),
          λ x. elim x [
            | inl h ↦ ground (arith, elem-union a (add p acc) above, elem-add a p acc)
            | inr from ↦ elim from [
              | inl (same, _) ↦
                  ground (arith, elem-union a (add p acc) above, elem-add a p acc, ==_iff a p)
              | inr (_, c) ↦ ground (arith, elem-union a (add p acc) above, (right a).1 c)
            ]
          ],
        ),
      )
        where
          not_excluded : mode_of graph p ≢ excluded
          not_excluded q = cc

      Adds-plain :
          mode_of graph p ≢ excluded
          → mode_of graph p ≢ aggregator
          → add_parent graph fields p acc ≡ ok (union acc above)
          → Adds fields p acc
      Adds-plain some_mode other done = (
        union acc above,
        done,
        λ a. (
          (λ h. ground (arith, elem-union a acc above, right a, some_mode)),
          λ x. elim x [
            | inl h ↦ ground (arith, elem-union a acc above)
            | inr from ↦ elim from [
              | inl (_, q) ↦ absurd (other q)
              | inr (_, c) ↦ ground (arith, elem-union a acc above, (right a).1 c)
            ]
          ],
        ),
      )

    add_parent_lem :
        (mode_of graph p ≢ excluded
          → (above : List BlockKey) × (lookup p fields ≡ some above) × IsRight above p)
        → (m : CompletionMode) → mode_of graph p ≡ m
        → Adds fields p acc
    unfolding add_parent
    add_parent_lem h excluded e = Adds-excluded e
    add_parent_lem h aggregator e =
        let (above, found, right) = h (λ q. cc) in Adds-aggregator above found right e
    add_parent_lem h completable e =
        let (above, found, right) = h (λ q. cc) in
        Adds-plain above found right (λ q. cc) (λ q. cc)
          (rw (e, add_parent) (add_annotation-found fields p acc above found))
    add_parent_lem h unknown e =
        let (above, found, right) = h (λ q. cc) in
        Adds-plain above found right (λ q. cc) (λ q. cc)
          (rw (e, add_parent) (add_annotation-found fields p acc above found))

  -- Every parent that is not excluded has the right annotation.
  abbrev pub Ready : Dict (List BlockKey) → List BlockKey → Type 0
  Ready fields parents =
      (p : BlockKey)
      → In p parents
      → mode_of graph p ≢ excluded
      → (above : List BlockKey) × (lookup p fields ≡ some above) × IsRight above p

  add_parents_lem :
      (fields : Dict (List BlockKey)) (ps : List BlockKey) (acc : List BlockKey)
      → Ready fields ps
      → (acc' : List BlockKey) × (add_parents graph fields ps acc ≡ ok acc')
        × ((a : BlockKey)
            → (elem a acc' ≡ true) ↔ ((elem a acc ≡ true) ⊎ ((p : BlockKey) × In p ps × From a p)))
  unfolding add_parents
  add_parents_lem fields [] acc ready =
      (acc, refl, λ a. (inl, λ x. elim x [ inl h ↦ h | inr (p, m, _) ↦ elim m [ ] ]))
  add_parents_lem fields (p ∷ ps) acc ready =
      let (acc₁, first, iff₁) =
        add_parent_lem fields p acc (ready p (inl refl)) (mode_of graph p) refl in
      let (acc₂, rest, iff₂) = add_parents_lem fields ps acc₁ (λ q m. ready q (inr m)) in
      (
        acc₂,
        rw first rest,
        λ a. (
          (λ h. elim ((iff₂ a).0 h) [
            | inl h₁ ↦ elim ((iff₁ a).0 h₁) [ inl h₀ ↦ inl h₀ | inr f ↦ inr (p, inl refl, f) ]
            | inr (q, m, f) ↦ inr (q, inr m, f)
          ]),
          λ x. elim x [
            | inl h₀ ↦ (iff₂ a).1 (inl ((iff₁ a).1 (inl h₀)))
            | inr (q, m, f) ↦ elim m [
              | inl e ↦ (iff₂ a).1 (inl ((iff₁ a).1 (inr (subst (From a) e f))))
              | inr m' ↦ (iff₂ a).1 (inr (q, m', f))
            ]
          ],
        ),
      )

  pub calculate_aggregators-IsRight :
      (fields : Dict (List BlockKey)) (block : BlockKey)
      → Ready fields (graph.get_parents block)
      → (aggregators : List BlockKey) × (calculate_aggregators graph fields block ≡ ok aggregators)
        × IsRight aggregators block
  unfolding calculate_aggregators
  calculate_aggregators-IsRight fields block ready =
      let (acc, done, iff) = add_parents_lem fields (graph.get_parents block) [] ready in
      (
        acc,
        done,
        λ a. (
          (λ h. elim ((iff a).0 h) [
            | inl none_yet ↦ cc
            | inr (p, m, f) ↦ elim f [
              | inl (e, q) ↦
                  direct (subst (λ x. In x (graph.get_parents block)) (sym e) m)
                    (subst (λ x. mode_of graph x ≡ aggregator) (sym e) q)
              | inr (q, c) ↦ indirect m q c
            ]
          ]),
          λ c. (iff a).1 (inr (source a c)),
        ),
      )
    where
      source :
          (a : BlockKey)
          → Contains graph a block
          → (p : BlockKey) × In p (graph.get_parents block) × From a p
      source a (direct m q) = (a, m, inl (refl, q))
      source a (indirect {p = p} m q c) = (p, m, inr (q, c))
