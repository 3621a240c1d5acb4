-- ===== src/Prelude/TextOrder.antt =====
-- Laws of the order of texts.
use Prim.Native.Char.{Char, code}
use Prim.Native.Nat.{Ordering, compare as compare_ℕ}
use Prim.Native.String.compare
use Prim.Native.String.{String, compare, then}
use mathlib.Core.Path.{◌≡◌, refl}
use mathlib.Core.Logic.{inl, inr}
use mathlib.Core.Bool.{true, false}
use native.Mathlib.Omega.{arith}
use text.Mathlib.Text.{is_lt}
use text.Mathlib.TextEquality.{path_by_compare}
use text.Mathlib.TextPositions.{compare_refl}
use houdry.Prelude.Tests.{str_lt, Bool-cases}

pub str_lt_irrefl : (s : String) → str_lt s s ≡ false
str_lt_irrefl s = rw (compare_refl s) refl

-- The order compares the first characters, and the rest where these agree.
str_lt-cons :
    (c d : Char) (s t : String)
    → str_lt (String.◌∷◌ c s) (String.◌∷◌ d t) ≡ elim (compare_ℕ (code c) (code d)) [
      | Ordering.lt ↦ true
      | Ordering.eq ↦ str_lt s t
      | Ordering.gt ↦ false
    ]
str_lt-cons c d s t = rw (compare.cons-cons c d s t) (go (compare_ℕ (code c) (code d)))
  where
    go :
        (o : Ordering)
        → is_lt (then o (compare s t))
          ≡ elim o [ Ordering.lt ↦ true | Ordering.eq ↦ str_lt s t | Ordering.gt ↦ false ]
    go Ordering.lt = refl
    go Ordering.eq = refl
    go Ordering.gt = refl

nothing-below-nil : (s : String) → str_lt s String.[] ≡ false
nothing-below-nil String.[] = refl
nothing-below-nil (String.◌∷◌ c s) = rw (compare.cons-nil c s) refl

pub str_lt_trans : (s t u : String) → str_lt s t ≡ true → str_lt t u ≡ true → str_lt s u ≡ true
str_lt_trans s t String.[] p q = cc (nothing-below-nil t)
str_lt_trans s String.[] (String.◌∷◌ e u) p q = cc (nothing-below-nil s)
str_lt_trans String.[] (String.◌∷◌ d t) (String.◌∷◌ e u) p q = rw (compare.nil-cons e u) refl
str_lt_trans (String.◌∷◌ c s) (String.◌∷◌ d t) (String.◌∷◌ e u) p q =
    ground
      (arith, str_lt-cons c d s t, str_lt-cons d e t u, str_lt-cons c e s u, str_lt_trans s t u)

below_cons : (c : Char) (s : String) → str_lt String.[] (String.◌∷◌ c s) ≡ true
below_cons c s = rw (compare.nil-cons c s) refl

compare_of_neither :
    (s t : String) → str_lt s t ≡ false → str_lt t s ≡ false → compare s t ≡ Ordering.eq
compare_of_neither String.[] String.[] p q = compare.nil-nil
compare_of_neither String.[] (String.◌∷◌ d t) p q = cc (below_cons d t)
compare_of_neither (String.◌∷◌ c s) String.[] p q = cc (below_cons c s)
compare_of_neither (String.◌∷◌ c s) (String.◌∷◌ d t) p q =
    rw (compare.cons-cons c d s t)
      (ground (arith, str_lt-cons c d s t, str_lt-cons d c t s, compare_of_neither s t))

-- Of two texts one is smaller, or they are equal.
pub str_lt_total : (s t : String) → str_lt s t ≡ false → str_lt t s ≡ false → s ≡ t
str_lt_total s t p q = path_by_compare s t (compare_of_neither s t p q)

pub str_lt_asym : (s t : String) → str_lt s t ≡ true → str_lt t s ≡ false
str_lt_asym s t p = elim (Bool-cases (str_lt t s)) [
  | inl q ↦ cc (str_lt_trans s t s p q, str_lt_irrefl s)
  | inr q ↦ q
]
