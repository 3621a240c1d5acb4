-- ===== src/Routing/Scoring.antt =====
-- scorePair of internal/routing/router.go, with the types and tests that it uses.
use houdry.Prelude.{
  ℕ, suc, ◌+◌, ◌*◌, String, Bool, true, false, not, ◌&&◌, ◌||◌, List, [], ◌∷◌, Option, none, some,
  str_eq, leb, ltb, ◌==◌, if◌then◌else◌, any, is_empty, length, filter,
}
use houdry.Prelude.Int.{ℤ, pos, ◌+ℤ◌, ◌-ℤ◌}
use houdry.Text.{codes, lower, contains, has_prefix, equal_fold}
use houdry.Model.{Identity, Model, has_model, is_loaded}
use houdry.Resources.{first_non_empty}
use houdry.Fitting.{has_runtime}

pub data Modality : Type 0 where
  text code vision document : Modality

-- A catalog file may hold any text as a complexity; `other` is one that is none of the constants.
pub data Complexity : Type 0 where
  low medium high : Complexity
  other : String → Complexity

unfoldable pub complexity_rank : Complexity → ℕ
complexity_rank low = 1
complexity_rank medium = 2
complexity_rank high = 3
complexity_rank (other s) = 1

abbrev pub is_low : Complexity → Bool
is_low low = true
is_low _ = false

abbrev pub is_code : Modality → Bool
is_code code = true
is_code _ = false

-- A task that needs a model that can see.
abbrev pub is_visual : Modality → Bool
is_visual vision = true
is_visual document = true
is_visual _ = false

pub record TaskProfile : Type 0 where
  pub modality : Modality
  pub complexity : Complexity
  pub capabilities : List String
  pub score : ℕ

pub record CatalogEntry : Type 0 where
  pub name : String
  pub tag : String
  pub runtime : String
  pub capabilities : List String
  pub max_complexity : Complexity
  pub min_vram_bytes : ℕ
  pub priority : ℤ

pub record NodeView : Type 0 where
  pub node_id : String
  pub host : String
  pub status : String
  pub model_runtimes : List String
  pub models : List Model
  pub vram_total : ℕ
  pub vram_available : ℕ

pub record RouteRequest : Type 0 where
  pub catalog : List CatalogEntry
  pub nodes : List NodeView
  pub prefer_loaded : Bool
  pub allow_pull : Bool
  pub require_present : Bool
  pub preferred_runtime : String
  pub image_attached : Bool
  pub require_tools : Bool
  pub allow_busy : Bool

pub record Candidate : Type 0 where
  pub entry : CatalogEntry
  pub node_id : String
  pub host : String
  pub score : ℤ
  pub loaded : Bool
  pub present : Bool

-- hasCap
unfoldable pub has_cap : List String → String → Bool
has_cap caps want = any (λ c. equal_fold c want) caps

-- EntrySupportsTools
unfoldable pub entry_supports_tools : CatalogEntry → Bool
entry_supports_tools e =
    let n = lower (codes e.name) in
    if has_cap e.capabilities "tools"
    then true
    else if contains n (codes "tinyllama")
    then false
    else contains n (codes "coder")
      || has_prefix n (codes "llama3.1")
      || has_prefix n (codes "llama3.2")
      || has_prefix n (codes "llama3.3")
      || has_prefix n (codes "qwen3")

-- EntrySupports
unfoldable pub entry_supports : CatalogEntry → TaskProfile → Bool
entry_supports e p =
    if ltb (complexity_rank e.max_complexity) (complexity_rank p.complexity)
    then false
    else if is_visual p.modality
    then has_cap e.capabilities "vision"
    else if has_cap p.capabilities "tools" && not (entry_supports_tools e)
    then false
    else if is_code p.modality
    then has_cap e.capabilities "code" || has_cap e.capabilities "chat"
    else if any (λ need. not (str_eq need "tools") && has_cap e.capabilities need) p.capabilities
    then true
    else has_cap e.capabilities "chat"

-- nodeEligible
unfoldable pub node_eligible : String → Bool → Bool
node_eligible status allow_busy =
    if equal_fold status "READY" then true else allow_busy && equal_fold status "BUSY"

-- The identity that scorePair looks for.
abbrev pub wanted : CatalogEntry → RouteRequest → Identity
wanted e req = record {
  name = e.name;
  tag = e.tag;
  runtime = first_non_empty (req.preferred_runtime ∷ e.runtime ∷ []);
}

-- The memory that the gate compares with: what is available, or the total; 0 is unknown.
abbrev pub known_vram : NodeView → ℕ
known_vram n = if n.vram_available == 0 then n.vram_total else n.vram_available

unfoldable pub is_short_of_vram : CatalogEntry → NodeView → Bool
is_short_of_vram e n =
    ltb 0 e.min_vram_bytes && (ltb 0 (known_vram n) && ltb (known_vram n) e.min_vram_bytes)

unfoldable pub lacks_runtime : Identity → NodeView → Bool
lacks_runtime id n =
    if not (str_eq id.runtime "")
    then not (has_runtime n.model_runtimes id.runtime)
    else is_empty n.model_runtimes

-- The points for the size of the model.
unfoldable pub tier : CatalogEntry → TaskProfile → ℕ
tier e p =
    if complexity_rank e.max_complexity == complexity_rank p.complexity
    then 40
    else if complexity_rank e.max_complexity == suc (complexity_rank p.complexity)
    then 15
    else 5

-- The points for what the model can do.
unfoldable pub skill : CatalogEntry → TaskProfile → RouteRequest → ℕ
skill e p req =
    length (filter (has_cap e.capabilities) p.capabilities) * 12
    + (if is_code p.modality && has_cap e.capabilities "code" then 25 else 0)
    + (if is_low p.complexity && has_cap e.capabilities "simple" then 20 else 0)
    + (if req.require_tools && entry_supports_tools e then 35 else 0)

-- The points for a model that is loaded, by how much larger it is than needed.
unfoldable pub warm : CatalogEntry → TaskProfile → ℕ
warm e p =
    if leb (complexity_rank p.complexity + 2) (complexity_rank e.max_complexity)
    then 15
    else if complexity_rank e.max_complexity == suc (complexity_rank p.complexity)
    then 25
    else 80

unfoldable pub warmth : CatalogEntry → TaskProfile → RouteRequest → Bool → Bool → ℕ
warmth e p req is_warm is_there =
    if is_warm then warm e p else if is_there then 25 else if req.allow_pull then 5 else 0

unfoldable pub losses : NodeView → RouteRequest → Bool → ℕ
losses n req is_warm =
    (if req.prefer_loaded && not is_warm then 10 else 0)
    + (if equal_fold n.status "BUSY" then 50 else 0)

unfoldable pub pair_score : CatalogEntry → NodeView → TaskProfile → RouteRequest → ℤ
pair_score e n p req =
    let is_there = has_model n.models (wanted e req) in
    let is_warm = is_loaded n.models (wanted e req) in
    (pos (tier e p + skill e p req + warmth e p req is_warm is_there) -ℤ pos (losses n req is_warm))
    +ℤ e.priority

-- scorePair; `none` is a pair that a gate refuses.
unfoldable pub score_pair : CatalogEntry → NodeView → TaskProfile → RouteRequest → Option Candidate
score_pair e n p req =
    let id = wanted e req in
    if lacks_runtime id n
    then none
    else if is_short_of_vram e n
    then none
    else if req.require_present && not (has_model n.models id)
    then none
    else if not req.allow_pull && not (has_model n.models id)
    then none
    else some (record {
      entry = e;
      node_id = n.node_id;
      host = n.host;
      score = pair_score e n p req;
      loaded = is_loaded n.models id;
      present = has_model n.models id;
    })
