-- ===== src/Inference/Runtimes.antt =====
-- SelectAvailable, Discover and Find of internal/modelruntime/runtime.go, and ListModels with
-- loadedSet of internal/modelruntime/ollama.go. A runtime is what it answers: whether it is available,
-- and its models, unless listing them fails.
use houdry.Prelude.{
  ℕ, String, Bool, ◌||◌, List, [], ◌∷◌, ◌++◌, Option, none, some, str_eq, filter, map, any,
  if◌then◌else◌,
}
use houdry.Prelude.Results.{Result, ok, err}
use houdry.Text.{eq_codes}
use houdry.Model.{Identity, Model, match, normalize, parse_ref, ref}

pub record Runtime : Type 0 where
  pub name : String
  pub available : Bool
  pub models : Option (List Model)

-- SelectAvailable
unfoldable pub select_available : List Runtime → List Runtime
select_available all = filter (λ (r : Runtime). r.available) all

names : List Runtime → List String
names [] = []
names (r ∷ rs) = r.name ∷ names rs

listed : List Runtime → List Model
listed [] = []
listed (r ∷ rs) = elim r.models [ none ↦ listed rs | some ms ↦ ms ++ listed rs ]

-- Discover
unfoldable pub discover : List Runtime → List String × List Model
unfolding select_available names listed
discover runtimes = (names (select_available runtimes), listed (select_available runtimes))

pub data FindError : Type 0 where
  named_unavailable none_available : FindError

unfoldable pub suitable : Identity → List Runtime → List Runtime
unfolding select_available
suitable id runtimes =
    let available = select_available runtimes in
    if str_eq id.runtime ""
    then available
    else filter (λ (r : Runtime). str_eq r.name id.runtime) available

-- The row of a runtime that satisfies the identity.
unfoldable pub match_on : Identity → Runtime → Option Model
match_on id r = elim r.models [ none ↦ none | some ms ↦ match ms (record id { runtime = r.name }) ]

-- The row of a model that no runtime has.
unfoldable pub not_present : Identity → Runtime → Model
not_present id r = record {
  name = id.name;
  tag = id.tag;
  runtime = r.name;
  state = "NOT_PRESENT";
  size_bytes = 0;
  vram_bytes = 0;
  digest = "";
  family = "";
  parameter_size = "";
}

unfoldable pub find_in : Identity → Runtime → List Runtime → Runtime × Model
unfolding match_on not_present
find_in id fallback [] = (fallback, not_present id fallback)
find_in id fallback (r ∷ rs) =
    let rest = find_in id fallback rs in elim (match_on id r) [ none ↦ rest | some m ↦ (r, m) ]

unfoldable pub find_suitable : Identity → List Runtime → Result FindError (Runtime × Model)
unfolding find_in
find_suitable id [] = err (if str_eq id.runtime "" then none_available else named_unavailable)
find_suitable id (r ∷ rs) = ok (find_in id r (r ∷ rs))

-- Find
unfoldable pub find_runtime : List Runtime → Identity → Result FindError (Runtime × Model)
unfolding suitable find_suitable
find_runtime runtimes id = find_suitable id (suitable id runtimes)

-- A row of /api/tags or /api/ps.
pub record TagRow : Type 0 where
  pub name : String
  pub model : String
  pub size : ℕ
  pub digest : String
  pub family : String
  pub parameter_size : String

unfoldable pub row_identity : TagRow → Identity
row_identity r = parse_ref (if str_eq r.name "" then r.model else r.name)

-- loadedSet, as a list of its keys; no answer is an empty set.
unfoldable pub loaded_set : List TagRow → List (List ℕ)
unfolding row_identity
loaded_set [] = []
loaded_set (r ∷ rs) =
    normalize (ref (row_identity r)) ∷ normalize (row_identity r).name ∷ loaded_set rs

unfoldable pub holds : List (List ℕ) → List ℕ → Bool
holds keys key = any (λ k. eq_codes k key) keys

-- One row of ListModels.
unfoldable pub listed_model : List (List ℕ) → TagRow → Model
unfolding row_identity holds
listed_model loaded r =
    let id = row_identity r in
    record {
      name = id.name;
      tag = id.tag;
      runtime = "ollama";
      state =
          if holds loaded (normalize (ref id)) || holds loaded (normalize id.name)
          then "LOADED"
          else "AVAILABLE";
      size_bytes = r.size;
      vram_bytes = 0;
      digest = r.digest;
      family = r.family;
      parameter_size = r.parameter_size;
    }

-- ListModels, with the rows of /api/tags and of /api/ps.
unfoldable pub list_models : List TagRow → List TagRow → List Model
unfolding listed_model loaded_set
list_models tags running = map (listed_model (loaded_set running)) tags
