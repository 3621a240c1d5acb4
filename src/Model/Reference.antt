-- ===== src/Model/Reference.antt =====
-- ParseRef and Ref of internal/modelruntime/identity.go.
use Prim.Native.Char.{Char, code}
use text.Mathlib.TextEquality.{Char-path}
use houdry.Prelude.{
  subst, ◌⊎◌, ◌≡◌, ◌≢◌, refl, sym, ◌∙◌, inl, inr, ℕ, String, true, false, Bool, Option, none, some,
  arith, str_eq, eq_iff, Bool-cases, Option-cases, ◌==◌,
}
use houdry.Text.{append, codes, contains, is_space}
use houdry.Text.Trim.{Codes, IsSpaceless, Codes-append, trim_spaceless}
use houdry.Model.{
  split_last_colon, parse_ref, parse_trimmed, parse_split, ref, join_ref, colon_at, is_untagged,
}

abbrev pub IsColonless : String → Type 0
IsColonless = Codes (λ c. (c == b':') ≡ false)

split_colonless : (s : String) → IsColonless s → split_last_colon s ≡ none
unfolding split_last_colon
split_colonless String.[] h = refl
split_colonless (String.◌∷◌ c s) h = ground (arith, split_colonless s h.1)

split_joined :
    (name tag : String)
    → IsColonless tag
    → split_last_colon (append name (append ":" tag)) ≡ some (name, tag)
unfolding split_last_colon
split_joined String.[] tag h = rw (split_colonless tag h) refl
split_joined (String.◌∷◌ c s) tag h = rw (split_joined s tag h) refl

module _ (name tag : String) (hn : name ≢ "") (ht : tag ≢ "") where
  ref_joined :
      IsSpaceless name
      → IsSpaceless tag
      → ref (record { name = name; tag = tag; runtime = "" }) ≡ append name (append ":" tag)
  unfolding ref join_ref
  ref_joined sn st =
      rw (trim_spaceless name sn, trim_spaceless tag st)
        (ground (arith, eq_iff name "", eq_iff tag ""))

  joined-ne-nil : append name (append ":" tag) ≢ ""
  joined-ne-nil = go name
    where
      go : (n : String) → append n (append ":" tag) ≢ ""
      go String.[] = λ e. cc
      go (String.◌∷◌ c n) = λ e. cc

  parse_joined :
      IsColonless tag
      → contains (codes tag) (codes "/") ≡ false
      → parse_trimmed (append name (append ":" tag))
        ≡ record { name = name; tag = tag; runtime = "" }
  unfolding parse_trimmed parse_split is_untagged
  parse_joined ct slash = rw (split_joined name tag ct) (
      ground (
        arith,
        eq_iff name "",
        eq_iff tag "",
        eq_iff (append name (append ":" tag)) "",
        joined-ne-nil,
      ))

  parse_tagged :
      IsSpaceless name
      → IsSpaceless tag
      → IsColonless tag
      → contains (codes tag) (codes "/") ≡ false
      → parse_ref (ref (record { name = name; tag = tag; runtime = "" }))
        ≡ record { name = name; tag = tag; runtime = "" }
  unfolding parse_ref is_space
  parse_tagged sn st ct slash =
      rw
        (
          ref_joined sn st,
          trim_spaceless (append name (append ":" tag))
              (Codes-append _ name (append ":" tag) sn (spaced, st)),
        )
        (parse_joined ct slash)
    where
      spaced : is_space b':' ≡ false
      spaced = refl

ref_plain : (s : String) → IsSpaceless s → ref (record { name = s; tag = ""; runtime = "" }) ≡ s
unfolding ref join_ref
ref_plain s h = rw (trim_spaceless s h, trim_spaceless "" tt) (ground (arith, eq_iff s ""))

parse_untagged :
    (name : String)
    → name ≢ ""
    → IsSpaceless name
    → IsColonless name
    → parse_ref (ref (record { name = name; tag = ""; runtime = "" }))
      ≡ record { name = name; tag = ""; runtime = "" }
unfolding parse_ref parse_trimmed parse_split
parse_untagged name hn sn cn =
    rw (ref_plain name sn, trim_spaceless name sn, split_colonless name cn)
      (ground (arith, eq_iff name ""))

-- A tag without a colon and a slash; or no tag, and a name without a colon.
abbrev pub IsReadable : String → String → Type 0
IsReadable name tag =
    ((tag ≢ "") × IsColonless tag × (contains (codes tag) (codes "/") ≡ false))
    ⊎ ((tag ≡ "") × IsColonless name)

-- An identity without a runtime is read back from the reference that it prints, where its name is not
-- empty, neither part has a space in it, and either it has a tag, without a colon and a slash, or it
-- has none and its name has no colon.
pub parse_ref-ref :
    (name tag : String)
    → name ≢ ""
    → IsSpaceless name
    → IsSpaceless tag
    → IsReadable name tag
    → parse_ref (ref (record { name = name; tag = tag; runtime = "" }))
      ≡ record { name = name; tag = tag; runtime = "" }
parse_ref-ref name tag hn sn st (inl (ht, ct, slash)) = parse_tagged name tag hn ht sn st ct slash
parse_ref-ref name tag hn sn st (inr (none_given, cn)) =
    subst
      (λ t.
        parse_ref (ref (record { name = name; tag = t; runtime = "" }))
        ≡ record { name = name; tag = t; runtime = "" })
      (sym none_given) (parse_untagged name hn sn cn)

-- The colon that is found stands between the two parts.
colon_at_sound :
    (c : Char) (s before rest : String) (b : Bool)
    → (code c == b':') ≡ b
    → colon_at b s ≡ some (before, rest)
    → String.◌∷◌ c s ≡ append before (append ":" rest)
unfolding colon_at
colon_at_sound c s before rest true t h = let here : c ≡ ":" = Char-path c ":" (ground arith) in cc
colon_at_sound c s before rest false t h = cc

split_sound :
    (s before rest : String)
    → split_last_colon s ≡ some (before, rest)
    → s ≡ append before (append ":" rest)
unfolding split_last_colon
split_sound String.[] before rest h = cc
split_sound (String.◌∷◌ c s) before rest h = elim (Option-cases (split_last_colon s)) [
  | inl e ↦ colon_at_sound c s before rest (code c == b':') refl (rw (e, split_last_colon) at h)
  | inr ((b, r), e) ↦ ground (arith, split_sound s b r e)
]

untagged_parts : (b r : String) → is_untagged b r ≡ false → (b ≢ "") × (r ≢ "")
unfolding is_untagged
untagged_parts b r h = ground (arith, eq_iff b "", eq_iff r "")

Codes-parts : (P : ℕ → Type 0) (s t : String) → Codes P (append s t) → Codes P s × Codes P t
Codes-parts P String.[] t h = (tt, h)
Codes-parts P (String.◌∷◌ c s) t h = let r = Codes-parts P s t h.1 in ((h.0, r.0), r.1)

ref-parse_split :
    (s : String) (o : Option (String × String))
    → IsSpaceless s
    → split_last_colon s ≡ o
    → ref (parse_split s o) ≡ s
unfolding parse_split
ref-parse_split s none h e = ref_plain s h
ref-parse_split s (some (b, r)) h e = elim (Bool-cases (is_untagged b r)) [
  | inl plain ↦ rw plain (ref_plain s h)
  | inr tagged ↦
      let whole = split_sound s b r e in
      let parts = Codes-parts (λ c. is_space c ≡ false) b (append ":" r) (rw whole at h) in
      rw tagged (
        ref_joined b r (untagged_parts b r tagged).0 (untagged_parts b r tagged).1 parts.0 parts.1.1
        ∙ sym whole)
]

-- Every text without spaces is printed back from the identity that is read from it, whatever
-- colons and slashes it has.
pub ref-parse_ref : (s : String) → IsSpaceless s → ref (parse_ref s) ≡ s
unfolding parse_ref parse_trimmed
ref-parse_ref s h = rw (trim_spaceless s h) (elim (Bool-cases (str_eq s "")) [
  | inl e ↦ rw e (rw ((eq_iff s "").0 e) (ref_plain "" tt))
  | inr e ↦ rw e (ref-parse_split s (split_last_colon s) h refl)
])
