-- ===== src/Core/Structure/Reachable.antt =====
-- The blocks in the dictionary of `format_course_blocks` (core.py).
use openedx_completion_aggre.Prelude.{
  ℕ, zero, suc, ◌<◌, ◌≡◌, refl, sym, ap, subst, ◌∙◌, ◌⊎◌, inl, inr, none, some, List, [], ◌∷◌, In,
  Dict, lookup, insert, lookup-insert, Result, ok, arith, Option-cases,
}
use openedx_completion_aggre.Platform.{BlockKey}
use openedx_completion_aggre.Core.{CourseBlocksEntry}
use openedx_completion_aggre.Core.Structure.{
  BlockStructure, entry_of, populate_all, populate, format_course_blocks,
}

-- A block that is reached from `root` through children.
pub data Below (course_blocks : BlockStructure) (root : BlockKey) : BlockKey → Type 0 where
  here : Below course_blocks root root
  child :
      {b c : BlockKey}
      → Below course_blocks root b
      → In c (entry_of course_blocks b).children
      → Below course_blocks root c

module _ (bs : BlockStructure) where
  pub Below-trans : {a b c : BlockKey} → Below bs a b → Below bs b c → Below bs a c
  Below-trans p here = p
  Below-trans p (child q m) = child (Below-trans p q) m

  abbrev Has : Dict CourseBlocksEntry → BlockKey → Type 0
  Has st k = lookup k st ≡ some (entry_of bs k)

  -- What a visit of the blocks of `From` makes of a dictionary.
  pub record Visited (From : BlockKey → Type 0) (st st' : Dict CourseBlocksEntry) : Type 0 where
    pub keeps :
        (k : BlockKey) {e : CourseBlocksEntry} → lookup k st ≡ some e → lookup k st' ≡ some e
    pub adds : (k : BlockKey) → From k → Has st' k
    pub closed :
        (k : BlockKey)
        → lookup k st ≡ none
        → Has st' k
        → (c : BlockKey) → In c (entry_of bs k).children
        → Has st' c
    pub only :
        (k : BlockKey)
        → (lookup k st' ≡ lookup k st) ⊎ Has st' k × ((a : BlockKey) × From a × Below bs a k)

  abbrev pub Consistent : Dict CourseBlocksEntry → Type 0
  Consistent st = (k : BlockKey) → (lookup k st ≡ none) ⊎ Has st k

  Consistent-Visited :
      {From : BlockKey → Type 0} {st st' : Dict CourseBlocksEntry}
      → Visited From st st'
      → Consistent st
      → Consistent st'
  Consistent-Visited v h k = elim (v.only k) [
    | inl same ↦ elim (h k) [ inl miss ↦ inl (same ∙ miss) | inr hit ↦ inr (same ∙ hit) ]
    | inr new ↦ inr new.0
  ]

  abbrev Visits :
      (BlockKey → Type 0) → Result (Dict CourseBlocksEntry) → Dict CourseBlocksEntry → Type 0
  Visits From r st = (st' : Dict CourseBlocksEntry) × (r ≡ ok st') × Visited From st st'

  lookup-nil : (k : BlockKey) → lookup {V = CourseBlocksEntry} k [] ≡ none
  unfolding lookup
  lookup-nil k = refl

  Visited-nil : (st : Dict CourseBlocksEntry) → Visited (λ a. In a []) st st
  Visited-nil st = record {
    keeps = λ k e. e;
    adds = λ k m. elim m [ ];
    closed = λ k miss hit c m. cc;
    only = λ k. inl refl;
  }

  Visited-cons :
      (c : BlockKey) (cs : List BlockKey) (st₁ st₂ st₃ : Dict CourseBlocksEntry)
      → Visited (λ a. a ≡ c) st₁ st₂
      → Visited (λ a. In a cs) st₂ st₃
      → Visited (λ a. In a (c ∷ cs)) st₁ st₃
  Visited-cons c cs st₁ st₂ st₃ v w = record {
    keeps = λ k e. w.keeps k (v.keeps k e);
    adds = λ k m. elim m [ inl e ↦ w.keeps k (v.adds k e) | inr m' ↦ w.adds k m' ];
    closed = λ k miss hit d m. elim (w.only k) [
      | inl same ↦ w.keeps d (v.closed k miss (sym same ∙ hit) d m)
      | inr new ↦ elim (Option-cases (lookup k st₂)) [
        | inl none₂ ↦ w.closed k none₂ hit d m
        | inr (e, some₂) ↦
            let same : lookup k st₂ ≡ some (entry_of bs k) = some₂ ∙ sym (w.keeps k some₂) ∙ hit in
            w.keeps d (v.closed k miss same d m)
      ]
    ];
    only = λ k. elim (w.only k) [
      | inl same ↦ elim (v.only k) [
        | inl same' ↦ inl (same ∙ same')
        | inr (hit, (a, e, below)) ↦ inr (same ∙ hit, (a, inl e, below))
      ]
      | inr (hit, (a, m, below)) ↦ inr (hit, (a, inr m, below))
    ];
  }

  populate_all-Visits :
      (visit : BlockKey → Dict CourseBlocksEntry → Result (Dict CourseBlocksEntry))
      (cs : List BlockKey)
      → ((c : BlockKey)
          → In c cs
          → (st : Dict CourseBlocksEntry) → Consistent st
          → Visits (λ a. a ≡ c) (visit c st) st)
      → (st : Dict CourseBlocksEntry) → Consistent st
      → Visits (λ a. In a cs) (populate_all visit cs st) st
  unfolding populate_all
  populate_all-Visits visit [] h st good = (st, refl, Visited-nil st)
  populate_all-Visits visit (c ∷ cs) h st good =
      let (st₂, first, v) = h c (inl refl) st good in
      let (st₃, rest, w) =
        populate_all-Visits visit cs (λ d m. h d (inr m)) st₂ (Consistent-Visited v good) in
      (st₃, rw first rest, Visited-cons c cs st st₂ st₃ v w)

  lookup-insert_ne_cases :
      (b k : BlockKey) (e : CourseBlocksEntry) (st : Dict CourseBlocksEntry)
      → (b ≡ k) × (lookup k (insert b e st) ≡ some e) ⊎ (lookup k (insert b e st) ≡ lookup k st)
  lookup-insert_ne_cases b k e st = rw lookup-insert (ground arith)

  lookup-insert_self :
      (b : BlockKey) (e : CourseBlocksEntry) (st : Dict CourseBlocksEntry)
      → lookup b (insert b e st) ≡ some e
  lookup-insert_self b e st = rw lookup-insert (ground arith)

  module _ (b : BlockKey) (st : Dict CourseBlocksEntry) (new : lookup b st ≡ none) where
    abbrev st₁ : Dict CourseBlocksEntry
    st₁ = insert b (entry_of bs b) st

    Has-st₁_cases : (k : BlockKey) → (b ≡ k) × Has st₁ k ⊎ (lookup k st₁ ≡ lookup k st)
    Has-st₁_cases k = elim (lookup-insert_ne_cases b k (entry_of bs b) st) [
      | inl (e, hit) ↦ inl (e, hit ∙ ap (λ j. some (entry_of bs j)) e)
      | inr old ↦ inr old
    ]

    Consistent-insert : Consistent st → Consistent st₁
    Consistent-insert good k = elim (Has-st₁_cases k) [
      | inl (e, hit) ↦ inr hit
      | inr old ↦ elim (good k) [ inl miss ↦ inl (old ∙ miss) | inr hit ↦ inr (old ∙ hit) ]
    ]

    Visited-insert :
        (st' : Dict CourseBlocksEntry)
        → Visited (λ a. In a (entry_of bs b).children) st₁ st'
        → Visited (λ a. a ≡ b) st st'
    Visited-insert st' v = record {
      keeps = λ k e. elim (Has-st₁_cases k) [
        | inl (same, hit) ↦ absurd (absent k same e)
        | inr old ↦ v.keeps k (old ∙ e)
      ];
      adds = λ k e. v.keeps k (rw e (lookup-insert_self b (entry_of bs b) st));
      closed = λ k miss hit c m. elim (Has-st₁_cases k) [
        | inl (same, _) ↦ v.adds c (subst (λ j. In c (entry_of bs j).children) (sym same) m)
        | inr old ↦ v.closed k (old ∙ miss) hit c m
      ];
      only = λ k. elim (v.only k) [
        | inl same ↦ elim (Has-st₁_cases k) [
          | inl (e, hit) ↦ inr (same ∙ hit, (b, refl, subst (Below bs b) e here))
          | inr old ↦ inl (same ∙ old)
        ]
        | inr (hit, (a, m, below)) ↦ inr (hit, (b, refl, Below-trans (child here m) below))
      ];
    }
      where
        absent : (k : BlockKey) {e : CourseBlocksEntry} → b ≡ k → lookup k st ≡ some e → ⊥
        absent k same found = cc

  populate_old :
      (limit : ℕ) (b : BlockKey) (st : Dict CourseBlocksEntry) {e : CourseBlocksEntry}
      → lookup b st ≡ some e
      → populate bs (suc limit) b st ≡ ok st
  unfolding populate
  populate_old limit b st hit = rw (hit, populate)

  populate_new :
      (limit : ℕ) (b : BlockKey) (st : Dict CourseBlocksEntry)
      → lookup b st ≡ none
      → populate bs (suc limit) b st
        ≡ populate_all (populate bs limit) (entry_of bs b).children (insert b (entry_of bs b) st)
  unfolding populate
  populate_new limit b st miss = rw (miss, populate)

  Visited-old : (b : BlockKey) (st : Dict CourseBlocksEntry) → Has st b → Visited (λ a. a ≡ b) st st
  Visited-old b st hit = record {
    keeps = λ k e. e;
    adds = λ k e. rw e hit;
    closed = λ k miss found c m. cc;
    only = λ k. inl refl;
  }

  module _ (rank : BlockKey → ℕ)
      (acyclic : (b c : BlockKey) → In c (entry_of bs b).children → rank c < rank b) where
    populate-Visits :
        (limit : ℕ) (b : BlockKey) (st : Dict CourseBlocksEntry)
        → rank b < limit
        → Consistent st
        → Visits (λ a. a ≡ b) (populate bs limit b st) st
    populate-Visits zero b st h good = absurd (omega arith)
    populate-Visits (suc limit) b st h good = elim (good b) [
      | inr hit ↦ (st, populate_old limit b st hit, Visited-old b st hit)
      | inl miss ↦
          let (st', done, v) =
            populate_all-Visits (populate bs limit) (entry_of bs b).children
              (λ c m s good'. populate-Visits limit c s (omega (arith, acyclic b c m)) good')
              (insert b (entry_of bs b) st) (Consistent-insert b st miss good) in
          (st', populate_new limit b st miss ∙ done, Visited-insert b st miss st' v)
    ]

    Has-Below :
        (root : BlockKey) (st : Dict CourseBlocksEntry)
        → Visited (λ a. a ≡ root) [] st
        → {k : BlockKey} → Below bs root k
        → Has st k
    Has-Below root st v here = v.adds root refl
    Has-Below root st v (child {b = b} {c = c} p m) =
        v.closed b (lookup-nil b) (Has-Below root st v p) c m

    -- On an acyclic structure, whose rank of the root is below the recursion limit, the call
    -- returns. The dictionary then maps each block below the root to its own children and
    -- aggregators, and has no other key.
    pub format_course_blocks-Below :
        (limit : ℕ) (root : BlockKey)
        → rank root < limit
        → (structure : Dict CourseBlocksEntry) × (format_course_blocks bs limit root ≡ ok structure)
          × ((k : BlockKey) → Below bs root k → lookup k structure ≡ some (entry_of bs k))
          × ((k : BlockKey) (e : CourseBlocksEntry)
              → lookup k structure ≡ some e
              → Below bs root k × (e ≡ entry_of bs k))
    unfolding format_course_blocks lookup
    format_course_blocks-Below limit root h =
        let (st, done, v) = populate-Visits limit root [] h (λ k. inl refl) in
        (
          st,
          done,
          λ k p. Has-Below root st v p,
          λ k e found. elim (v.only k) [
            | inl same ↦ cc
            | inr (hit, (a, same, below)) ↦ (subst (λ r. Below bs r k) same below, ground arith)
          ],
        )
