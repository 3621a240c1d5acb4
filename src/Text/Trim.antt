-- ===== src/Text/Trim.antt =====
-- strings.TrimSpace on texts without spaces.
use Prim.Native.Char.{Char, code}
use mathlib.Core.Bool.{false≢true}
use houdry.Prelude.{
  ◌≡◌, refl, ap, ◌∙◌, ℕ, String, false, arith, All, str_eq, eq_iff, inl, inr, Bool-cases,
}
use houdry.Text.{append, codes, is_space, trim_space, trim_left, trim_right, is_nil}

-- Every character code of the text passes the test.
abbrev pub Codes : (ℕ → Type 0) → String → Type 0
Codes P s = All P (codes s)

abbrev pub IsSpaceless : String → Type 0
IsSpaceless = Codes (λ c. is_space c ≡ false)

pub Codes-append : (P : ℕ → Type 0) (s t : String) → Codes P s → Codes P t → Codes P (append s t)
Codes-append P String.[] t h k = k
Codes-append P (String.◌∷◌ c s) t h k = (h.0, Codes-append P s t h.1 k)

trim_left_spaceless : (s : String) → IsSpaceless s → trim_left s ≡ s
unfolding trim_left
trim_left_spaceless String.[] h = refl
trim_left_spaceless (String.◌∷◌ c s) h = ground (arith)

trim_right_spaceless : (s : String) → IsSpaceless s → trim_right s ≡ s
unfolding trim_right
trim_right_spaceless String.[] h = refl
trim_right_spaceless (String.◌∷◌ c s) h = ground (arith, trim_right_spaceless s h.1)

pub trim_spaceless : (s : String) → IsSpaceless s → trim_space s ≡ s
unfolding trim_space
trim_spaceless s h = ap trim_right (trim_left_spaceless s h) ∙ trim_right_spaceless s h

pub cons_ne : (c : Char) (s : String) → str_eq (String.◌∷◌ c s) "" ≡ false
unfolding is_nil
cons_ne c s = elim (Bool-cases (str_eq (String.◌∷◌ c s) "")) [
  | inr e ↦ e
  | inl e ↦ absurd (false≢true (ap is_nil ((eq_iff (String.◌∷◌ c s) "").0 e)))
]

-- A text that does not start with a space is not trimmed away.
pub trim_space-first :
    (c : Char) (s : String)
    → is_space (code c) ≡ false
    → str_eq (trim_space (String.◌∷◌ c s)) "" ≡ false
unfolding trim_space trim_left trim_right
trim_space-first c s h = elim (Bool-cases (is_nil (trim_right s))) [
  | inl e ↦ rw (h, e, h) (cons_ne c (trim_right s))
  | inr e ↦ rw (h, e) (cons_ne c (trim_right s))
]
