-- ===== src/Stub/Segments.antt =====
-- Texts and their segments, as `StubCompat` (test_utils/compat.py) compares them.
use openedx_completion_aggre.Prelude.{
  ℕ, ◌+◌, ◌≡◌, refl, sym, ap, ◌∙◌, ◌↔◌, inl, inr, true, List, [], ◌∷◌, ◌++◌, ◌==◌, ==_iff, length,
  Bool-cases, and_intro, and_left, and_right, append_assoc, arith,
}
use openedx_completion_aggre.Stub.{
  Text, hyphen, text_eq, segments_eq, extend, split, starts_with, without_last,
}

pub text_eq_iff : (s t : Text) → (text_eq s t ≡ true) ↔ (s ≡ t)
text_eq_iff [] [] = (λ e. refl, λ e. refl)
text_eq_iff [] (d ∷ t) = (λ e. cc, λ e. cc)
text_eq_iff (c ∷ s) [] = (λ e. cc, λ e. cc)
text_eq_iff (c ∷ s) (d ∷ t) = ground (arith, text_eq_iff s t)

pub segments_eq_iff : (s t : List Text) → (segments_eq s t ≡ true) ↔ (s ≡ t)
segments_eq_iff [] [] = (λ e. refl, λ e. refl)
segments_eq_iff [] (d ∷ t) = (λ e. cc, λ e. cc)
segments_eq_iff (c ∷ s) [] = (λ e. cc, λ e. cc)
segments_eq_iff (c ∷ s) (d ∷ t) = ground (arith, text_eq_iff c d, segments_eq_iff s t)

-- The segments with hyphens between them.
abbrev pub join : List Text → Text
join [] = []
join (s ∷ []) = s
join (s ∷ t ∷ ts) = s ++ hyphen ∷ join (t ∷ ts)

-- There is a segment at least.
abbrev pub IsNonempty : List Text → Type 0
IsNonempty [] = ⊥
IsNonempty (s ∷ ss) = Unit {0}

extend-IsNonempty : (c : ℕ) (ss : List Text) → IsNonempty (extend c ss)
extend-IsNonempty c [] = tt
extend-IsNonempty c (s ∷ ss) = tt

pub split-IsNonempty : (text : Text) → IsNonempty (split text)
unfolding split
split-IsNonempty [] = tt
split-IsNonempty (c ∷ text) = elim (Bool-cases (c == hyphen)) [
  | inl h ↦ rw h tt
  | inr n ↦ rw n (extend-IsNonempty c (split text))
]

extend-append :
    (c : ℕ) (ss ts : List Text) → IsNonempty ss → extend c (ss ++ ts) ≡ (extend c ss ++ ts)
extend-append c [] ts h = absurd h
extend-append c (s ∷ ss) ts h = refl

pub split-append : (s rest : Text) → split (s ++ hyphen ∷ rest) ≡ (split s ++ split rest)
unfolding split
split-append [] rest = refl
split-append (c ∷ s) rest = elim (Bool-cases (c == hyphen)) [
  | inl h ↦ rw (h, split-append s rest)
  | inr n ↦
      rw (n, split-append s rest) (extend-append c (split s) (split rest) (split-IsNonempty s))
]

join-extend : (c : ℕ) (ss : List Text) → IsNonempty ss → join (extend c ss) ≡ c ∷ join ss
join-extend c [] h = absurd h
join-extend c (s ∷ []) h = refl
join-extend c (s ∷ t ∷ ts) h = refl

join-nil : (ss : List Text) → IsNonempty ss → join ([] ∷ ss) ≡ hyphen ∷ join ss
join-nil [] h = absurd h
join-nil (s ∷ ss) h = refl

pub join-split : (text : Text) → join (split text) ≡ text
unfolding split
join-split [] = refl
join-split (c ∷ text) = elim (Bool-cases (c == hyphen)) [
  | inl h ↦ rw h (
      join-nil (split text) (split-IsNonempty text)
      ∙ ap (λ t. hyphen ∷ t) (join-split text)
      ∙ ap (λ x. x ∷ text) (sym ((==_iff c hyphen).0 h)))
  | inr n ↦
      rw n (join-extend c (split text) (split-IsNonempty text) ∙ ap (λ t. c ∷ t) (join-split text))
]

pub join-append :
    (ss ts : List Text)
    → IsNonempty ss
    → IsNonempty ts
    → join (ss ++ ts) ≡ (join ss ++ hyphen ∷ join ts)
join-append [] ts h k = absurd h
join-append (s ∷ []) [] h k = absurd k
join-append (s ∷ []) (t ∷ ts) h k = refl
join-append (s ∷ r ∷ ss) ts h k =
    ap (λ l. s ++ hyphen ∷ l) (join-append (r ∷ ss) ts tt k)
    ∙ sym (append_assoc s (hyphen ∷ join (r ∷ ss)) (hyphen ∷ join ts))

pub starts_with_iff :
    (text prefix : Text)
    → (starts_with text prefix ≡ true) ↔ ((rest : Text) × (text ≡ prefix ++ rest))
unfolding starts_with
starts_with_iff text [] = (λ e. (text, refl), λ e. refl)
starts_with_iff [] (c ∷ prefix) = (λ e. cc, λ (rest, e). cc)
starts_with_iff (d ∷ text) (c ∷ prefix) = (
  λ h.
      let (rest, e) =
        (starts_with_iff text prefix).0 (and_right (d == c) (starts_with text prefix) h) in
      let same = (==_iff d c).0 (and_left (d == c) (starts_with text prefix) h) in
      (rest, ap (λ x. x ∷ text) same ∙ ap (λ t. c ∷ t) e),
  λ (rest, e).
      let tails : text ≡ prefix ++ rest = cc in
      let heads : d ≡ c = cc in
      and_intro (d == c) (starts_with text prefix) ((==_iff d c).1 heads)
        ((starts_with_iff text prefix).1 (rest, tails)),
)

-- The segments of the first text, and one at least, follow those of the second.
abbrev pub IsBelow : Text → Text → Type 0
IsBelow text above = (more : List Text) × IsNonempty more × (split text ≡ split above ++ more)

pub starts_with-IsBelow :
    (text above : Text) → (starts_with text (above ++ hyphen ∷ []) ≡ true) ↔ IsBelow text above
starts_with-IsBelow text above = (
  λ h.
      let (rest, e) = (starts_with_iff text (above ++ hyphen ∷ [])).0 h in
      (
        split rest,
        split-IsNonempty rest,
        ap split (e ∙ append_assoc above (hyphen ∷ []) rest) ∙ split-append above rest,
      ),
  λ (more, some_more, e). (starts_with_iff text (above ++ hyphen ∷ [])).1 (
    join more,
    sym (join-split text)
        ∙ ap join e
        ∙ join-append (split above) more (split-IsNonempty above) some_more
        ∙ ap (λ t. t ++ hyphen ∷ join more) (join-split above)
        ∙ sym (append_assoc above (hyphen ∷ []) (join more)),
  ),
)

pub last_segment : (ss : List Text) → IsNonempty ss → (s : Text) × (ss ≡ without_last ss ++ s ∷ [])
last_segment [] h = absurd h
last_segment (s ∷ []) h = (s, refl)
last_segment (s ∷ t ∷ ts) h = let (l, e) = last_segment (t ∷ ts) tt in (l, ap (λ x. s ∷ x) e)

pub without_last-append : (ss : List Text) (s : Text) → without_last (ss ++ s ∷ []) ≡ ss
without_last-append [] s = refl
without_last-append (r ∷ []) s = refl
without_last-append (r ∷ t ∷ ts) s = ap (λ x. r ∷ x) (without_last-append (t ∷ ts) s)

pub length-append_one : (ss : List Text) (s : Text) → length (ss ++ s ∷ []) ≡ length ss + 1
length-append_one [] s = refl
length-append_one (r ∷ ss) s = omega (arith, length-append_one ss s)
