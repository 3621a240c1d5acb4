-- ===== src/Routing/Choosing.antt =====
-- Route and fallbackPresent of internal/routing/router.go.
use houdry.Prelude.{
  Bool, true, false, not, ◌&&◌, ◌||◌, List, [], ◌∷◌, ◌++◌, Option, none, some, str_eq, str_lt, ltb,
  is_empty, any, if◌then◌else◌,
}
use houdry.Prelude.Int.{pos, ◌+ℤ◌, ltb_ℤ, eqb_ℤ}
use houdry.Model.{Identity, has_model, is_loaded}
use houdry.Routing.Scoring.{
  Modality, Complexity, complexity_rank, is_visual, TaskProfile, CatalogEntry, NodeView,
  RouteRequest, Candidate, has_cap, entry_supports_tools, entry_supports, node_eligible, score_pair,
}

pub record Decision : Type 0 where
  pub profile : TaskProfile
  pub selected : Option Candidate
  pub candidates : List Candidate
  pub deferred : Bool

at_least_medium : Complexity → Complexity
at_least_medium c =
    if ltb (complexity_rank c) (complexity_rank Complexity.medium) then Complexity.medium else c

unfoldable pub for_tools : RouteRequest → TaskProfile → TaskProfile
unfolding at_least_medium
for_tools req p =
    if req.require_tools
    then record p {
      capabilities =
          if has_cap p.capabilities "tools" then p.capabilities else p.capabilities ++ "tools" ∷ [];
      complexity = at_least_medium p.complexity;
    }
    else p

unfoldable pub for_image : RouteRequest → TaskProfile → TaskProfile
unfolding at_least_medium
for_image req p =
    if req.image_attached
    then record p {
      modality = Modality.vision;
      capabilities = "vision" ∷ "ocr" ∷ "chat" ∷ [];
      complexity = at_least_medium p.complexity;
    }
    else p

-- The profile that Route works with, from the one that Analyze gives.
unfoldable pub adjusted : RouteRequest → TaskProfile → TaskProfile
unfolding for_tools for_image
adjusted req p = for_image req (for_tools req p)

-- A row of the catalog that is not passed over.
unfoldable pub is_offered : TaskProfile → RouteRequest → CatalogEntry → Bool
is_offered p req e =
    not (req.require_tools && not (entry_supports_tools e))
    && entry_supports e p
    && not (
        not (str_eq req.preferred_runtime "")
        && not (str_eq e.runtime "")
        && not (str_eq e.runtime req.preferred_runtime))

unfoldable pub cons_some {ℓ} : {A : Type ℓ} → Option A → List A → List A
cons_some none xs = xs
cons_some (some x) xs = x ∷ xs

-- The pairs of one row.
unfoldable pub on_nodes : TaskProfile → RouteRequest → CatalogEntry → List NodeView → List Candidate
unfolding cons_some
on_nodes p req e [] = []
on_nodes p req e (n ∷ ns) =
    let rest = on_nodes p req e ns in
    if node_eligible n.status req.allow_busy then cons_some (score_pair e n p req) rest else rest

-- The two loops of Route.
unfoldable pub pairs : TaskProfile → RouteRequest → List CatalogEntry → List Candidate
pairs p req [] = []
pairs p req (e ∷ es) =
    let rest = pairs p req es in
    if is_offered p req e then on_nodes p req e req.nodes ++ rest else rest

-- The order of the candidates: higher score, then higher priority, then smaller node id.
unfoldable pub ranks_before : Candidate → Candidate → Bool
ranks_before c d =
    if not (eqb_ℤ c.score d.score)
    then ltb_ℤ d.score c.score
    else if not (eqb_ℤ c.entry.priority d.entry.priority)
    then ltb_ℤ d.entry.priority c.entry.priority
    else str_lt c.node_id d.node_id

unfoldable pub insert_candidate : Candidate → List Candidate → List Candidate
insert_candidate c [] = c ∷ []
insert_candidate c (d ∷ ds) =
    let rest = insert_candidate c ds in if ranks_before d c then d ∷ rest else c ∷ d ∷ ds

-- sort.SliceStable
unfoldable pub ranked : List Candidate → List Candidate
unfolding insert_candidate
ranked [] = []
ranked (c ∷ cs) = insert_candidate c (ranked cs)

-- What fallbackPresent makes of a row and a node.
unfoldable pub fallback_pair : RouteRequest → CatalogEntry → NodeView → Option Candidate
fallback_pair req e n =
    let id : Identity = record { name = e.name; tag = e.tag; runtime = e.runtime } in
    if node_eligible n.status req.allow_busy && has_model n.models id
    then some (record {
      entry = e;
      node_id = n.node_id;
      host = n.host;
      score = pos 10 +ℤ e.priority;
      loaded = is_loaded n.models id;
      present = true;
    })
    else none

unfoldable pub higher : Option Candidate → Option Candidate → Option Candidate
higher best none = best
higher none (some c) = some c
higher (some b) (some c) = if ltb_ℤ b.score c.score then some c else some b

unfoldable pub fallback_nodes :
    RouteRequest → CatalogEntry → Option Candidate → List NodeView → Option Candidate
unfolding fallback_pair higher
fallback_nodes req e best [] = best
fallback_nodes req e best (n ∷ ns) = fallback_nodes req e (higher best (fallback_pair req e n)) ns

-- fallbackPresent
unfoldable pub fallback_present :
    RouteRequest → Option Candidate → List CatalogEntry → Option Candidate
unfolding fallback_nodes
fallback_present req best [] = best
fallback_present req best (e ∷ es) =
    fallback_present req
      (if (req.require_tools && not (entry_supports_tools e))
          || (not (has_cap e.capabilities "chat") && not (has_cap e.capabilities "simple"))
        then best
        else fallback_nodes req e best req.nodes)
      es

-- The end of Route, from the sorted candidates and the fallback.
unfoldable pub decide : TaskProfile → List Candidate → Option Candidate → Decision
decide p (c ∷ cs) fallback = record {
  profile = p;
  selected = some c;
  candidates = c ∷ cs;
  deferred = false;
}
decide p [] none = record { profile = p; selected = none; candidates = []; deferred = false }
decide p [] (some f) =
    if is_visual p.modality
    then record { profile = p; selected = none; candidates = []; deferred = false }
    else record { profile = p; selected = some f; candidates = f ∷ []; deferred = false }

-- Route, with DefaultCatalog's rows and the profile that Analyze derives.
unfoldable pub route : List CatalogEntry → TaskProfile → RouteRequest → Decision
unfolding adjusted pairs ranked fallback_present decide
route default analyzed req =
    let p = adjusted req analyzed in
    let catalog = if is_empty req.catalog then default else req.catalog in
    if is_visual p.modality
      && not (any (λ (e : CatalogEntry). has_cap e.capabilities "vision") catalog)
    then record { profile = p; selected = none; candidates = []; deferred = true }
    else decide p (ranked (pairs p req catalog)) (fallback_present req none catalog)
