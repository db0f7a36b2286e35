-- ===== src/Prelude/Lists.antt =====
-- Lists with Boolean tests and native lengths. `In` is membership by recursion, with the place kept.
use Prim.Native.Nat.{ℕ, zero, suc}
use mathlib.Core.Path.{◌≡◌, refl, sym, ap, ◌∙◌, subst}
use mathlib.Core.Logic.{◌⊎◌, inl, inr}
use mathlib.Core.Bool.{Bool, true, false, ◌||◌}
use mathlib.Core.List.{List, [], ◌∷◌, ◌++◌}
use mathlib.Core.Option.{Option, none, some}
use native.Mathlib.Omega.{arith}
use openedx_completion_aggre.Prelude.Tests.{◌==◌, if◌then◌else◌, Bool-cases, ==_iff}

module _ {ℓ} {A : Type ℓ} where
  abbrev pub length : List A → ℕ
  length [] = 0
  length (x ∷ xs) = suc (length xs)

  -- `xs[:n]`
  abbrev pub take : ℕ → List A → List A
  take zero xs = []
  take (suc n) [] = []
  take (suc n) (x ∷ xs) = x ∷ take n xs

  -- `[x for x in xs if p(x)]`
  abbrev pub select : (A → Bool) → List A → List A
  select p [] = []
  select p (x ∷ xs) = let rest = select p xs in if p x then x ∷ rest else rest

  -- `any(p(x) for x in xs)`
  abbrev pub exists : (A → Bool) → List A → Bool
  exists p [] = false
  exists p (x ∷ xs) = p x || exists p xs

  -- `xs[0]`, or `QuerySet.first()`
  abbrev pub first : List A → Option A
  first [] = none
  first (x ∷ xs) = some x

  abbrev pub All {κ} : (A → Type κ) → List A → Type κ
  All P [] = Unit
  All P (x ∷ xs) = P x × All P xs

module _ {A : Type 0} where
  abbrev pub In : A → List A → Type 0
  In a [] = ⊥
  In a (x ∷ xs) = (a ≡ x) ⊎ In a xs

  pub In-append_left : (a : A) (xs ys : List A) → In a xs → In a (xs ++ ys)
  In-append_left a [] ys m = elim m [ ]
  In-append_left a (x ∷ xs) ys (inl e) = inl e
  In-append_left a (x ∷ xs) ys (inr m) = inr (In-append_left a xs ys m)

  pub append_assoc : (xs ys zs : List A) → ((xs ++ ys) ++ zs) ≡ (xs ++ (ys ++ zs))
  append_assoc [] ys zs = refl
  append_assoc (x ∷ xs) ys zs = ap (λ l. x ∷ l) (append_assoc xs ys zs)

  pub append_nil : (xs : List A) → (xs ++ []) ≡ xs
  append_nil [] = refl
  append_nil (x ∷ xs) = ap (λ ys. x ∷ ys) (append_nil xs)

  pub In-append_right : (a : A) (xs : List A) → In a (xs ++ a ∷ [])
  In-append_right a [] = inl refl
  In-append_right a (x ∷ xs) = inr (In-append_right a xs)

  pub In-append_right_all : (a : A) (xs ys : List A) → In a ys → In a (xs ++ ys)
  In-append_right_all a [] ys m = m
  In-append_right_all a (x ∷ xs) ys m = inr (In-append_right_all a xs ys m)

  pub In-append_cases : (a : A) {b : A} (xs : List A) → In a (xs ++ b ∷ []) → In a xs ⊎ (a ≡ b)
  In-append_cases a [] (inl e) = inr e
  In-append_cases a [] (inr m) = elim m [ ]
  In-append_cases a (x ∷ xs) (inl e) = inl (inl e)
  In-append_cases a (x ∷ xs) (inr m) = elim (In-append_cases a xs m) [
    | inl old ↦ inl (inr old)
    | inr e ↦ inr e
  ]

pub List-cases {ℓ} :
    {A : Type ℓ} (xs : List A) → (xs ≡ []) ⊎ ((x : A) × (rest : List A) × (xs ≡ x ∷ rest))
List-cases [] = inl refl
List-cases (x ∷ rest) = inr (x, rest, refl)

module _ {A : Type 0} (p : A → Bool) (a : A) where
  pub In-select : (xs : List A) → In a xs → p a ≡ true → In a (select p xs)
  In-select [] m h = m
  In-select (x ∷ xs) (inl e) h = rw (subst (λ y. p y ≡ true) e h) (inl e)
  In-select (x ∷ xs) (inr m) h = elim (Bool-cases (p x)) [
    | inl keep ↦ rw keep (inr (In-select xs m h))
    | inr drop ↦ rw drop (In-select xs m h)
  ]

  pub In-select_source : (xs : List A) → In a (select p xs) → In a xs × (p a ≡ true)
  In-select_source [] m = elim m [ ]
  In-select_source (x ∷ xs) m = elim (Bool-cases (p x)) [
    | inl keep ↦ elim (subst (In a) (ap (λ b. if b then x ∷ select p xs else select p xs) keep) m) [
      | inl e ↦ (inl e, ap p e ∙ keep)
      | inr n ↦ let (k, h) = In-select_source xs n in (inr k, h)
    ]
    | inr drop ↦
        let (k, h) =
          In-select_source xs
            (subst (In a) (ap (λ b. if b then x ∷ select p xs else select p xs) drop) m) in
        (inr k, h)
  ]

module _ {A : Type 0} (P : A → Type 0) where
  pub All-In : (xs : List A) (x : A) → All P xs → In x xs → P x
  All-In [] x h m = elim m [ ]
  All-In (y ∷ ys) x (h, hs) (inl e) = subst P (sym e) h
  All-In (y ∷ ys) x (h, hs) (inr m) = All-In ys x hs m

  pub All-take : (n : ℕ) (xs : List A) → All P xs → All P (take n xs)
  All-take zero xs h = tt
  All-take (suc n) [] h = tt
  All-take (suc n) (x ∷ xs) (h, hs) = (h, All-take n xs hs)

  pub All-append : (xs ys : List A) → All P xs → All P ys → All P (xs ++ ys)
  All-append [] ys h k = k
  All-append (x ∷ xs) ys (h, hs) k = (h, All-append xs ys hs k)

  pub All-append_without :
      (xs : List A) (y : A) (ys : List A) → All P (xs ++ y ∷ ys) → All P (xs ++ ys)
  All-append_without [] y ys (h, hs) = hs
  All-append_without (x ∷ xs) y ys (h, hs) = (h, All-append_without xs y ys hs)

-- `x in xs`, for identifiers
abbrev pub elem : ℕ → List ℕ → Bool
elem a [] = false
elem a (x ∷ xs) = a == x || elem a xs

-- Adding to a Python `set`, kept in the order of insertion.
abbrev pub add : ℕ → List ℕ → List ℕ
add a xs = if elem a xs then xs else xs ++ a ∷ []

-- `set.update`
abbrev pub union : List ℕ → List ℕ → List ℕ
union xs [] = xs
union xs (y ∷ ys) = union (add y xs) ys

elem-append : (a : ℕ) (xs ys : List ℕ) → elem a (xs ++ ys) ≡ (elem a xs || elem a ys)
elem-append a [] ys = refl
elem-append a (x ∷ xs) ys = ground (arith, elem-append a xs ys)

pub elem-add : (a b : ℕ) (xs : List ℕ) → elem a (add b xs) ≡ (a == b || elem a xs)
elem-add a b xs = elim (Bool-cases (elem b xs)) [
  | inl old ↦ rw old (same a b xs old)
  | inr new ↦ rw new (ground (arith, elem-append a xs (b ∷ [])))
]
  where
    same : (a b : ℕ) (xs : List ℕ) → elem b xs ≡ true → elem a xs ≡ (a == b || elem a xs)
    same a b xs h = elim (Bool-cases (a == b)) [
      | inl e ↦ rw e (ap (λ x. elem x xs) ((==_iff a b).0 e) ∙ h)
      | inr n ↦ rw n
    ]

pub elem-union : (a : ℕ) (xs ys : List ℕ) → elem a (union xs ys) ≡ (elem a xs || elem a ys)
elem-union a xs [] = ground arith
elem-union a xs (y ∷ ys) = ground (arith, elem-union a (add y xs) ys, elem-add a y xs)
