-- ===== src/Inference/Choosing.antt =====
-- Find of internal/modelruntime/runtime.go and ListModels of internal/modelruntime/ollama.go.
use houdry.Prelude.{
  ◌++◌, false, true, ◌||◌, ◌≡◌, refl, ◌⊎◌, inl, inr, ◌↔◌, List, [], ◌∷◌, none, some, str_eq, eq_iff,
  arith, Bool-cases, All, In, Some,
}
use houdry.Text.{eq_codes_iff}
use houdry.Model.{Identity, Model, identity, matches, normalize, ref}
use houdry.Inference.Runtimes.{
  Runtime, match_on, not_present, TagRow, row_identity, loaded_set, holds, listed_model,
}

-- A runtime that Find may answer.
pub record IsSuitable (id : Identity) (runtimes : List Runtime) (r : Runtime) : Type 0 where
  pub listed : In r runtimes
  pub available : r.available ≡ true
  pub named : (str_eq id.runtime "" || str_eq r.name id.runtime) ≡ true

-- The runtime stands in the list, and all before it have the property.
abbrev pub IsFirst : (Runtime → Type 0) → Runtime → List Runtime → Type 0
IsFirst P r rs = (before rest : List Runtime) × (rs ≡ before ++ r ∷ rest) × All P before

-- What the search over runtimes answers: a row of the answered runtime, or, if none of them has the
-- model, the first one with a row that says so.
abbrev pub Finds : Identity → Runtime → List Runtime → Runtime × Model → Type 0
Finds id fallback rs (r, m) =
    (In r rs × (match_on id r ≡ some m) × IsFirst (λ x. match_on id x ≡ none) r rs)
    ⊎ ((r ≡ fallback) × (m ≡ not_present id r) × All (λ x. match_on id x ≡ none) rs)

-- The identity, looked for on a runtime.
abbrev on : Identity → Runtime → Identity
on id r = record id { runtime = r.name }

-- A runtime lists the model, as a row of its inventory that the identity matches.
pub record Lists (id : Identity) (r : Runtime) (m : Model) : Type 0 where
  pub inventory : List Model
  pub listing : r.models ≡ some inventory
  pub row : In m inventory
  pub fits : matches (on id r) (identity m) ≡ true

-- Listing the models of a runtime fails, or no row of its inventory matches.
abbrev pub Lacks : Identity → Runtime → Type 0
Lacks id r =
    (r.models ≡ none)
    ⊎ ((ms : List Model) × (r.models ≡ some ms)
        × All (λ m. matches (on id r) (identity m) ≡ false) ms)

-- The running row has the same reference or the same name, whatever its tag.
abbrev pub SameModel : Identity → TagRow → Type 0
SameModel id r =
    (normalize (ref (row_identity r)) ≡ normalize (ref id))
    ⊎ ((normalize (row_identity r).name ≡ normalize (ref id))
        ⊎ ((normalize (ref (row_identity r)) ≡ normalize id.name)
            ⊎ (normalize (row_identity r).name ≡ normalize id.name)))

loaded_iff :
    (running : List TagRow) (id : Identity)
    → ((holds (loaded_set running) (normalize (ref id))
          || holds (loaded_set running) (normalize id.name))
        ≡ true)
      ↔ Some (SameModel id) running
unfolding loaded_set holds
loaded_iff [] id = ground arith
loaded_iff (r ∷ rs) id = ground (
  arith,
  eq_codes_iff (normalize (ref (row_identity r))) (normalize (ref id)),
  eq_codes_iff (normalize (row_identity r).name) (normalize (ref id)),
  eq_codes_iff (normalize (ref (row_identity r))) (normalize id.name),
  eq_codes_iff (normalize (row_identity r).name) (normalize id.name),
  loaded_iff rs id,
)

-- A model of the daemon is reported as LOADED exactly when some running model has its reference or its
-- name alone: one with another tag is enough.
pub listed_model-loaded :
    (running : List TagRow) (r : TagRow)
    → ((listed_model (loaded_set running) r).state ≡ "LOADED")
      ↔ Some (SameModel (row_identity r)) running
unfolding listed_model
listed_model-loaded running r =
    let i = loaded_iff running (row_identity r) in
    (
      λ h.
          elim (Bool-cases (
            holds (loaded_set running) (normalize (ref (row_identity r)))
            || holds (loaded_set running) (normalize (row_identity r).name))) [
              | inl e ↦ i.0 e
              | inr e ↦ absurd (ground (arith, e, eq_iff "AVAILABLE" "LOADED"))
            ],
      λ s. rw (i.1 s) refl,
    )
