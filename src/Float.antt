-- ===== src/Float.antt =====
-- The `float` arithmetic of Python, as an interface. `F` holds the finite, non-NaN values that
-- occur; the laws are those that IEEE 754 addition and division keep under rounding to nearest.
use native.Mathlib.Nat.{div-le_of_le-mul, add-zero}
use openedx_completion_aggre.Prelude.{
  ℕ, ◌+◌, ◌*◌, ◌/◌, ◌≡◌, refl, Bool, true, not, ◌&&◌, leb, ltb, leb→le, le→leb, ◌==◌, arith,
}

pub record Float (F : Type 0) : Type 0 where
  pub nought : F
  pub unit : F
  pub plus : F → F → F
  pub over : F → F → F
  pub times : F → F → F
  pub of_int : ℕ → F
  pub le : F → F → Bool
  pub lt : F → F → Bool
  pub eq : F → F → Bool
  pub le_refl : (a : F) → le a a ≡ true
  pub le_trans : (a b c : F) → le a b ≡ true → le b c ≡ true → le a c ≡ true
  pub nought-le-unit : le nought unit ≡ true
  pub plus-nought : (a : F) → plus a nought ≡ a
  pub plus_mono : (a b c d : F) → le a b ≡ true → le c d ≡ true → le (plus a c) (plus b d) ≡ true
  pub lt_not-le : (a b : F) → lt a b ≡ not (le b a)
  pub eq_le-le : (a b : F) → eq a b ≡ (le a b && le b a)
  pub over-nonneg :
      (a b : F)
      → le nought a ≡ true
      → le a b ≡ true
      → lt nought b ≡ true
      → le nought (over a b) ≡ true
  pub over-le_unit :
      (a b : F)
      → le nought a ≡ true
      → le a b ≡ true
      → lt nought b ≡ true
      → le (over a b) unit ≡ true

-- A value of the interface that runs: numbers of thousandths.
pub over-thousand : (a b : ℕ) → leb a b ≡ true → leb (a * 1000 / b) 1000 ≡ true
over-thousand a b h = le→leb _ _ (div-le_of_le-mul b (omega (arith, leb→le a b h)))

pub leb_refl : (a : ℕ) → leb a a ≡ true
leb_refl a = ground arith

pub leb_trans : (a b c : ℕ) → leb a b ≡ true → leb b c ≡ true → leb a c ≡ true
leb_trans a b c p q = ground arith

pub leb_mono : (a b c d : ℕ) → leb a b ≡ true → leb c d ≡ true → leb (a + c) (b + d) ≡ true
leb_mono a b c d p q = ground arith

pub ltb-not-leb : (a b : ℕ) → ltb a b ≡ not (leb b a)
ltb-not-leb a b = ground arith

pub ==_leb-leb : (a b : ℕ) → (a == b) ≡ (leb a b && leb b a)
==_leb-leb a b = ground arith

pub zero-leb : (a : ℕ) → leb 0 a ≡ true
zero-leb a = ground arith

instance abbrev pub thousandths : Float ℕ
thousandths = record {
  nought = 0;
  unit = 1000;
  plus = λ a b. a + b;
  over = λ a b. a * 1000 / b;
  times = λ a b. a * b / 1000;
  of_int = λ n. n * 1000;
  le = leb;
  lt = ltb;
  eq = λ a b. a == b;
  le_refl = leb_refl;
  le_trans = leb_trans;
  nought-le-unit = refl;
  plus-nought = add-zero;
  plus_mono = leb_mono;
  lt_not-le = ltb-not-leb;
  eq_le-le = ==_leb-leb;
  over-nonneg = λ a b p q r. zero-leb (a * 1000 / b);
  over-le_unit = λ a b p q r. over-thousand a b q;
}
