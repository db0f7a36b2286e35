-- ===== src/Transformer/Annotation.antt =====
-- The annotations that `transform` (transformers.py) sets.
use openedx_completion_aggre.Prelude.{
  ◌≡◌, refl, ap, ◌∙◌, subst, ◌⊎◌, inl, inr, ◌≢◌, ◌↔◌, true, some, List, [], ◌∷◌, ◌==◌, ==_iff, In,
  elem, Dict, lookup, insert, lookup-insert, ok, ◌>>=◌, arith, Bool-cases,
}
use openedx_completion_aggre.Platform.{
  BlockKey, CompletionMode, excluded, completable, aggregator, unknown,
}
use openedx_completion_aggre.Transformer.{
  BlockGraph, mode_of, calculate_aggregators, annotate, transform,
}
use openedx_completion_aggre.Transformer.Parents.{
  Contains, IsRight, Ready, calculate_aggregators-IsRight,
}

module _ (graph : BlockGraph) where
  -- Every parent stands before its children in the traversal.
  abbrev pub ParentsFirst : List BlockKey → List BlockKey → Type 0
  ParentsFirst seen [] = Unit
  ParentsFirst seen (block ∷ rest) =
      ((p : BlockKey) → In p (graph.get_parents block) → In p seen)
      × ParentsFirst (block ∷ seen) rest

  annotate-excluded :
      (block : BlockKey) (rest : List BlockKey) (fields : Dict (List BlockKey))
      → mode_of graph block ≡ excluded
      → annotate graph (block ∷ rest) fields ≡ annotate graph rest fields
  unfolding annotate
  annotate-excluded block rest fields e = rw (e, annotate)

  annotate-annotated :
      (block : BlockKey) (rest : List BlockKey) (fields : Dict (List BlockKey))
      → (m : CompletionMode) → mode_of graph block ≡ m
      → m ≢ excluded
      → annotate graph (block ∷ rest) fields ≡ (
          calculate_aggregators graph fields block >>= λ aggregators.
          annotate graph rest (insert block aggregators fields))
  unfolding annotate
  annotate-annotated block rest fields excluded e n = absurd (n refl)
  annotate-annotated block rest fields completable e n = rw (e, annotate)
  annotate-annotated block rest fields aggregator e n = rw (e, annotate)
  annotate-annotated block rest fields unknown e n = rw (e, annotate)

  Ready-insert :
      (fields : Dict (List BlockKey)) (block : BlockKey) (aggregators : List BlockKey)
      (seen : List BlockKey)
      → IsRight graph aggregators block
      → Ready graph fields seen
      → Ready graph (insert block aggregators fields) (block ∷ seen)
  Ready-insert fields block aggregators seen right ready p m q = elim (Bool-cases (block == p)) [
    | inl same ↦ (
      aggregators,
      lookup-insert block p aggregators fields ∙ rw same,
      subst (IsRight graph aggregators) ((==_iff block p).0 same) right,
    )
    | inr other ↦ elim m [
      | inl e ↦ absurd (ground (arith, e, other))
      | inr old ↦
          let (found, h, r) = ready p old q in
          (found, lookup-insert block p aggregators fields ∙ rw other h, r)
    ]
  ]

  Ready-excluded :
      (fields : Dict (List BlockKey)) (block : BlockKey) (seen : List BlockKey)
      → mode_of graph block ≡ excluded
      → Ready graph fields seen
      → Ready graph fields (block ∷ seen)
  Ready-excluded fields block seen e ready p (inl same) q =
      absurd (q (ap (λ x. mode_of graph x) same ∙ e))
  Ready-excluded fields block seen e ready p (inr old) q = ready p old q

  annotate-Ready :
      (order seen : List BlockKey) (fields : Dict (List BlockKey))
      → ParentsFirst seen order
      → Ready graph fields seen
      → (fields' : Dict (List BlockKey)) × (annotate graph order fields ≡ ok fields')
        × Ready graph fields' seen
        × Ready graph fields' order
  unfolding annotate
  annotate-Ready [] seen fields sorted ready = (fields, refl, ready, λ p m q. elim m [ ])
  annotate-Ready (block ∷ rest) seen fields (parents, sorted) ready =
      let again = λ (next : Dict (List BlockKey)) (ready' : Ready graph next (block ∷ seen)).
        annotate-Ready rest (block ∷ seen) next sorted ready' in
      elim (mode_cases (mode_of graph block)) [
        | inl e ↦
            finish again fields (annotate-excluded block rest fields e)
              (Ready-excluded fields block seen e ready)
        | inr n ↦
            let (aggregators, done, right) =
              calculate_aggregators-IsRight graph fields block (λ p m q. ready p (parents p m) q) in
            finish again (insert block aggregators fields)
              (annotate-annotated block rest fields (mode_of graph block) refl n ∙ rw done)
              (Ready-insert fields block aggregators seen right ready)
      ]
    where
      mode_cases : (m : CompletionMode) → (m ≡ excluded) ⊎ (m ≢ excluded)
      mode_cases excluded = inl refl
      mode_cases completable = inr (λ q. cc)
      mode_cases aggregator = inr (λ q. cc)
      mode_cases unknown = inr (λ q. cc)

      finish :
          ((next : Dict (List BlockKey))
            → Ready graph next (block ∷ seen)
            → (fields' : Dict (List BlockKey)) × (annotate graph rest next ≡ ok fields')
              × Ready graph fields' (block ∷ seen)
              × Ready graph fields' rest)
          → (next : Dict (List BlockKey))
          → annotate graph (block ∷ rest) fields ≡ annotate graph rest next
          → Ready graph next (block ∷ seen)
          → (fields' : Dict (List BlockKey)) × (annotate graph (block ∷ rest) fields ≡ ok fields')
            × Ready graph fields' seen
            × Ready graph fields' (block ∷ rest)
      finish again next step ready' =
          let (fields', done, old, new) = again next ready' in
          (
            fields',
            step ∙ done,
            λ p m q. old p (inr m) q,
            λ p m q. elim m [ inl e ↦ old p (inl e) q | inr m' ↦ new p m' q ],
          )

  -- When the traversal lists every parent before its children, the transformation returns, and
  -- each block of the traversal that is not excluded gets an annotation that holds exactly the
  -- aggregators that contain it, directly or through parents that are not excluded.
  pub transform-IsRight :
      ParentsFirst [] graph.topological_traversal
      → (fields : Dict (List BlockKey)) × (transform graph ≡ ok fields)
        × ((block : BlockKey)
            → In block graph.topological_traversal
            → mode_of graph block ≢ excluded
            → (aggregators : List BlockKey) × (lookup block fields ≡ some aggregators)
              × ((a : BlockKey) → (elem a aggregators ≡ true) ↔ Contains graph a block))
  unfolding transform
  transform-IsRight sorted =
      let (fields, done, _, ready) =
        annotate-Ready graph.topological_traversal [] [] sorted (λ p m q. elim m [ ]) in
      (fields, done, ready)
