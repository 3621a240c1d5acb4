-- ===== src/Model/Matching.antt =====
-- Matches of internal/modelruntime/identity.go and Match, HasModel and IsLoaded of runtime.go.
use houdry.Prelude.{
  ◌≡◌, ◌⊎◌, inl, inr, true, false, List, [], none, some, arith, eq_iff, All, In, find-eq-none,
  find-eq-some, Option-cases, ◌↔◌, ◌≢◌,
}
use houdry.Text.{eq_codes_iff}
use houdry.Model.{
  Identity, Model, normalize, equal_name_tag, matches, identity, match, has_model, is_loaded,
}

-- `want` accepts `have` exactly when the normalised names are equal and not empty, the normalised
-- tags are equal or `want` has none, and the normalised runtimes are equal or `want` has none.
pub matches_iff :
    (want have : Identity)
    → (matches want have ≡ true) ↔ (
        (normalize want.name ≢ [])
        × (normalize want.name ≡ normalize have.name)
        × ((want.tag ≡ "") ⊎ (normalize want.tag ≡ normalize have.tag))
        × ((want.runtime ≡ "") ⊎ (normalize want.runtime ≡ normalize have.runtime)))
unfolding matches equal_name_tag
matches_iff want have = ground (
  arith,
  eq_codes_iff (normalize want.name) (normalize have.name),
  eq_codes_iff (normalize want.tag) (normalize have.tag),
  eq_codes_iff (normalize want.runtime) (normalize have.runtime),
  eq_iff want.tag "",
  eq_iff want.runtime "",
)

-- The lookup returns the first row that matches, and nothing only if no row matches.
pub match_first :
    (models : List Model) (want : Identity)
    → ((match models want ≡ none) × All (λ m. matches want (identity m) ≡ false) models)
      ⊎ ((m : Model) × (match models want ≡ some m)
          × In m models
          × (matches want (identity m) ≡ true))
unfolding match
match_first models want = elim (Option-cases (match models want)) [
  | inl e ↦ inl (e, find-eq-none (λ m. matches want (identity m)) models e)
  | inr (m, e) ↦
      let r = find-eq-some (λ m. matches want (identity m)) models m e in inr (m, e, r.0, r.1)
]

-- A model that counts as loaded also counts as present.
pub has_model_of_loaded :
    (models : List Model) (want : Identity)
    → is_loaded models want ≡ true
    → has_model models want ≡ true
unfolding has_model is_loaded
has_model_of_loaded models want h = ground (arith)

-- A present model is backed by a row of the inventory whose state is usable.
pub has_model_sound :
    (models : List Model) (want : Identity)
    → has_model models want ≡ true
    → (m : Model) × In m models
      × (matches want (identity m) ≡ true)
      × ((m.state ≡ "AVAILABLE")
          ⊎ ((m.state ≡ "LOADED") ⊎ ((m.state ≡ "UNLOADED") ⊎ (m.state ≡ ""))))
unfolding has_model
has_model_sound models want h = elim (match_first models want) [
  | inl (e, a) ↦ ground arith
  | inr (m, e, i, t) ↦ (
    m,
    i,
    t,
    ground (
      arith,
      eq_iff m.state "AVAILABLE",
      eq_iff m.state "LOADED",
      eq_iff m.state "UNLOADED",
      eq_iff m.state "",
    ),
  )
]
