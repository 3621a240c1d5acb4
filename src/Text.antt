-- ===== src/Text.antt =====
-- Go's `strings` and `unicode` functions that the code calls, on ASCII text. Searching and folding
-- case work on the list of character codes; what returns a text works on the text itself.
pub mod Search
pub mod Trim
use Prim.Native.Char.{code}
use houdry.Prelude.{
  ℕ, ◌+◌, ◌≤◌, ◌≡◌, refl, ap, String, Bool, true, false, ◌&&◌, ◌||◌, ◌↔◌, List, [], ◌∷◌, map, arith,
  leb, ◌==◌, if◌then◌else◌, is_empty, any, Option, none, some,
}

abbrev pub codes : String → List ℕ
codes String.[] = []
codes (String.◌∷◌ c s) = code c ∷ codes s

-- s + t
abbrev pub append : String → String → String
append String.[] t = t
append (String.◌∷◌ c s) t = String.◌∷◌ c (append s t)

-- unicode.IsSpace, for ASCII
unfoldable pub is_space : ℕ → Bool
is_space c = c == 32 || (leb 9 c && leb c 13)

-- unicode.ToLower, for ASCII
unfoldable pub lower_code : ℕ → ℕ
lower_code c = if leb b'A' c && leb c b'Z' then c + 32 else c

-- strings.ToLower
unfoldable pub lower : List ℕ → List ℕ
unfolding lower_code
lower = map lower_code

unfoldable pub eq_codes : List ℕ → List ℕ → Bool
eq_codes [] [] = true
eq_codes [] (d ∷ t) = false
eq_codes (c ∷ s) [] = false
eq_codes (c ∷ s) (d ∷ t) = c == d && eq_codes s t

-- strings.EqualFold
unfoldable pub equal_fold : String → String → Bool
unfolding eq_codes lower
equal_fold s t = eq_codes (lower (codes s)) (lower (codes t))

trim_left : String → String
trim_left String.[] = String.[]
trim_left (String.◌∷◌ c s) = if is_space (code c) then trim_left s else String.◌∷◌ c s

is_nil : String → Bool
is_nil String.[] = true
is_nil (String.◌∷◌ c s) = false

trim_right : String → String
unfolding is_nil
trim_right String.[] = String.[]
trim_right (String.◌∷◌ c s) =
    let rest = trim_right s in
    if is_nil rest && is_space (code c) then String.[] else String.◌∷◌ c rest

-- strings.TrimSpace
unfoldable pub trim_space : String → String
unfolding trim_left trim_right is_space
trim_space s = trim_right (trim_left s)

-- strings.HasPrefix
unfoldable pub has_prefix : List ℕ → List ℕ → Bool
has_prefix s [] = true
has_prefix [] (d ∷ t) = false
has_prefix (c ∷ s) (d ∷ t) = c == d && has_prefix s t

-- strings.Contains
unfoldable pub contains : List ℕ → List ℕ → Bool
unfolding has_prefix
contains [] t = is_empty t
contains (c ∷ s) t = has_prefix (c ∷ s) t || contains s t

-- A text contains one of the needles.
unfoldable pub contains_any : List ℕ → List String → Bool
contains_any s needles = any (λ n. contains s (codes n)) needles

-- strings.TrimRight, for the characters that the test accepts
unfoldable pub trim_right_by : (ℕ → Bool) → List ℕ → List ℕ
trim_right_by p [] = []
trim_right_by p (c ∷ s) =
    let rest = trim_right_by p s in if is_empty rest && p c then [] else c ∷ rest

-- strings.HasSuffix
unfoldable pub has_suffix : List ℕ → List ℕ → Bool
unfolding eq_codes
has_suffix [] t = is_empty t
has_suffix (c ∷ s) t = eq_codes (c ∷ s) t || has_suffix s t

-- The text after a prefix, where the text has it: strings.HasPrefix with strings.TrimPrefix.
unfoldable pub cut_prefix : String → String → Option String
cut_prefix s String.[] = some s
cut_prefix String.[] (String.◌∷◌ d p) = none
cut_prefix (String.◌∷◌ c s) (String.◌∷◌ d p) = if code c == code d then cut_prefix s p else none

pub eq_codes_iff : (s t : List ℕ) → (eq_codes s t ≡ true) ↔ (s ≡ t)
unfolding eq_codes
eq_codes_iff [] [] = ground arith
eq_codes_iff [] (d ∷ t) = ground arith
eq_codes_iff (c ∷ s) [] = ground arith
eq_codes_iff (c ∷ s) (d ∷ t) = ground (arith, eq_codes_iff s t)

lower_code_idem : (c : ℕ) → lower_code (lower_code c) ≡ lower_code c
unfolding lower_code
lower_code_idem c = ground arith

pub lower_idem : (s : List ℕ) → lower (lower s) ≡ lower s
unfolding lower
lower_idem [] = refl
lower_idem (c ∷ s) = cc (lower_code_idem c, lower_idem s)

pub equal_fold_refl : (s : String) → equal_fold s s ≡ true
unfolding equal_fold
equal_fold_refl s = (eq_codes_iff (lower (codes s)) (lower (codes s))).1 refl
