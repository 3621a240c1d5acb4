-- ===== src/Text/Search.antt =====
-- strings.Contains and the parts of a text.
use houdry.Prelude.{ℕ, ◌≡◌, refl, ap, inl, inr, true, List, [], ◌∷◌, ◌++◌, arith, Bool-cases}
use houdry.Text.{has_prefix, contains}

pub has_prefix_sound : (s t : List ℕ) → has_prefix s t ≡ true → (rest : List ℕ) × (s ≡ t ++ rest)
unfolding has_prefix
has_prefix_sound s [] h = (s, refl)
has_prefix_sound [] (d ∷ t) h = ground arith
has_prefix_sound (c ∷ s) (d ∷ t) h =
    let (rest, e) = has_prefix_sound s t (ground arith) in (rest, ground arith)

pub has_prefix_append : (t rest : List ℕ) → has_prefix (t ++ rest) t ≡ true
unfolding has_prefix
has_prefix_append [] rest = refl
has_prefix_append (d ∷ t) rest = ground (arith, has_prefix_append t rest)

-- What is found stands between the parts before and after it.
pub contains_sound :
    (s t : List ℕ)
    → contains s t ≡ true
    → (before : List ℕ) × (rest : List ℕ) × (s ≡ before ++ (t ++ rest))
unfolding contains
contains_sound [] [] h = ([], [], refl)
contains_sound [] (d ∷ t) h = ground arith
contains_sound (c ∷ s) t h = elim (Bool-cases (has_prefix (c ∷ s) t)) [
  | inl e ↦ let (rest, p) = has_prefix_sound (c ∷ s) t e in ([], rest, p)
  | inr e ↦
      let (before, rest, p) = contains_sound s t (ground arith) in (c ∷ before, rest, ap (◌∷◌ c) p)
]

pub contains_complete : (before t rest : List ℕ) → contains (before ++ (t ++ rest)) t ≡ true
unfolding contains
contains_complete [] [] [] = refl
contains_complete [] [] (c ∷ rest) = refl
contains_complete [] (d ∷ t) rest = ground (arith, has_prefix_append (d ∷ t) rest)
contains_complete (c ∷ before) t rest = ground (arith, contains_complete before t rest)
