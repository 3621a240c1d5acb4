-- ===== src/Routing/Catalog.antt =====
-- DefaultCatalog, CatalogFromModels and PickFittingModel of internal/routing/catalog.go and router.go.
-- Descriptions are left out. A parameter count is an exact decimal, where the code reads a float64.
use houdry.Prelude.{
  ℕ, suc, ◌+◌, ◌-◌, ◌*◌, ◌^◌, String, Bool, true, false, not, ◌&&◌, ◌||◌, List, [], ◌∷◌, ◌++◌,
  Option, none, some, str_eq, ltb, leb, ◌==◌, if◌then◌else◌, is_empty, find, map,
}
use houdry.Prelude.Int.{pos}
use houdry.Text.{append, codes, lower, trim_space, equal_fold, contains_any}
use houdry.Model.{Model}
use houdry.Routing.Scoring.{Complexity, CatalogEntry, NodeView, entry_supports_tools, known_vram}
use houdry.Routing.Analysis.{append_cap}

default_row : String → String → List String → Complexity → ℕ → ℕ → CatalogEntry
default_row name tag caps c gib priority = record {
  name = name;
  tag = tag;
  runtime = "";
  capabilities = caps;
  max_complexity = c;
  min_vram_bytes = gib * 2 ^ 30;
  priority = pos priority;
}

-- DefaultCatalog
unfoldable pub default_catalog : List CatalogEntry
unfolding default_row
default_catalog =
    default_row "tinyllama" "latest" ("chat" ∷ "simple" ∷ []) Complexity.low 1 10
    ∷ default_row "qwen2.5" "0.5b" ("chat" ∷ "simple" ∷ "reasoning" ∷ []) Complexity.low 1 20
    ∷ default_row "qwen2.5-coder" "1.5b" ("code" ∷ "chat" ∷ "tools" ∷ []) Complexity.medium 2 40
    ∷ default_row "llama3.2" "3b" ("chat" ∷ "reasoning" ∷ "code" ∷ "tools" ∷ []) Complexity.medium 3
        30
    ∷ default_row "qwen2.5-coder" "7b" ("code" ∷ "chat" ∷ "reasoning" ∷ "tools" ∷ [])
        Complexity.high 6 50
    ∷ []

-- familyMeta
pub record Family : Type 0 where
  pub needles : List String
  pub capabilities : List String
  pub tools : Bool

abbrev family : List String → List String → Bool → Family
family needles caps tools = record { needles = needles; capabilities = caps; tools = tools }

-- knownFamilies; the first one that matches is taken.
unfoldable pub known_families : List Family
known_families =
    family ("qwen2.5vl" ∷ "qwen-vl" ∷ "llava" ∷ "moondream" ∷ "minicpm-v" ∷ [])
      ("vision" ∷ "ocr" ∷ "chat" ∷ []) false
    ∷ family ("coder" ∷ "codellama" ∷ "codegemma" ∷ "starcoder" ∷ [])
        ("code" ∷ "chat" ∷ "reasoning" ∷ []) true
    ∷ family ("deepseek-r1" ∷ "qwq" ∷ "thinking" ∷ "o1" ∷ "marco-o1" ∷ [])
        ("reasoning" ∷ "chat" ∷ "code" ∷ []) false
    ∷ family ("llama3" ∷ "llama-3" ∷ []) ("chat" ∷ "reasoning" ∷ "code" ∷ []) true
    ∷ family ("qwen" ∷ []) ("chat" ∷ "reasoning" ∷ "code" ∷ []) true
    ∷ family ("mistral" ∷ "mixtral" ∷ "gemma" ∷ "phi" ∷ []) ("chat" ∷ "reasoning" ∷ []) false
    ∷ family ("tinyllama" ∷ "smollm" ∷ []) ("chat" ∷ "simple" ∷ []) false
    ∷ []

unfoldable pub family_caps : Option Family → List String
family_caps none = "chat" ∷ []
family_caps (some f) = if f.tools then f.capabilities ++ "tools" ∷ [] else f.capabilities

-- A number with as many decimal places.
pub record Decimal : Type 0 where
  pub units : ℕ
  pub places : ℕ

is_digit : ℕ → Bool
is_digit c = leb b'0' c && leb c b'9'

-- The walk back over digits and at most one dot, along the reversed text.
walk_back : Bool → List ℕ → List ℕ
unfolding is_digit
walk_back dot [] = []
walk_back dot (c ∷ s) =
    let rest = walk_back (dot || c == b'.') s in
    if is_digit c || (c == b'.' && not dot) then c ∷ rest else []

units_of : List ℕ → ℕ
units_of [] = 0
units_of (c ∷ s) = if c == b'.' then units_of s else units_of s * 10 + (c - b'0')

places_of : ℕ → List ℕ → ℕ
places_of n [] = 0
places_of n (c ∷ s) = let rest = places_of (suc n) s in if c == b'.' then n else rest

decimal_of : List ℕ → Decimal
unfolding units_of places_of
decimal_of token = record { units = units_of token; places = places_of 0 token }

-- The decimal is less than the number.
abbrev pub is_below : ℕ → Decimal → Bool
is_below n d = ltb d.units (n * 10 ^ d.places)

starts_lower : List ℕ → Bool
starts_lower [] = false
starts_lower (c ∷ s) = leb b'a' c && leb c b'z'

-- What a `b` with this before it, reversed, and this after it says.
param_at : List ℕ → List ℕ → Option Decimal
unfolding walk_back starts_lower decimal_of
param_at before s =
    let d = decimal_of (walk_back false before) in
    if is_empty (walk_back false before) || starts_lower s
    then none
    else if ltb 0 d.units && is_below 2_000 d
    then some d
    else none

or_else {ℓ} : {A : Type ℓ} → Option A → Option A → Option A
or_else none o = o
or_else (some a) o = some a

-- paramsFrom; `none` is 0. The first argument is what was passed, reversed.
unfoldable pub params_from : List ℕ → List ℕ → Option Decimal
unfolding param_at or_else
params_from before [] = none
params_from before (c ∷ s) =
    or_else (if c == b'b' then param_at before s else none) (params_from (c ∷ before) s)

-- parseParamBillions
unfoldable pub parse_param_billions : List ℕ → String → Option Decimal
unfolding or_else
parse_param_billions ref parameter_size =
    or_else (params_from [] (lower (codes parameter_size))) (params_from [] ref)

-- The tiers by size: the complexity, the priority, and the capabilities.
unfoldable pub sized : CatalogEntry → Option Decimal → CatalogEntry
sized e none = record e { max_complexity = Complexity.medium; priority = pos 4 }
sized e (some d) =
    if is_below 2 d
    then record e {
      max_complexity = Complexity.low;
      capabilities = append_cap e.capabilities "simple";
      priority = pos 2;
    }
    else if leb d.units (8 * 10 ^ d.places)
    then record e { max_complexity = Complexity.medium; priority = pos 6 }
    else record e { max_complexity = Complexity.high; priority = pos 10 }

-- The reference by which entryForModel knows the family.
unfoldable pub family_ref : Model → List ℕ
family_ref m = lower (codes (trim_space (append m.name (append ":" m.tag))))

-- The row before its tier is set.
unfoldable pub unsized : Model → CatalogEntry
unfolding known_families family_caps family_ref
unsized m = record {
  name = m.name;
  tag = m.tag;
  runtime = m.runtime;
  capabilities = family_caps (find (λ f. contains_any (family_ref m) f.needles) known_families);
  max_complexity = Complexity.other "";
  min_vram_bytes = m.size_bytes;
  priority = pos 0;
}

-- entryForModel
unfoldable pub entry_for_model : Model → CatalogEntry
unfolding unsized sized
entry_for_model m = sized (unsized m) (parse_param_billions (family_ref m) m.parameter_size)

-- CatalogFromModels
unfoldable pub catalog_from_models : List Model → List CatalogEntry
catalog_from_models = map entry_for_model

-- The row of the catalog for a model, or a row of its own.
unfoldable pub row_for : List CatalogEntry → Model → CatalogEntry
row_for [] m = record {
  name = m.name;
  tag = m.tag;
  runtime = "";
  capabilities = [];
  max_complexity = Complexity.other "";
  min_vram_bytes = 0;
  priority = pos 0;
}
row_for (c ∷ cs) m = if equal_fold c.name m.name && equal_fold c.tag m.tag then c else row_for cs m

abbrev pub need_of : List CatalogEntry → Model → ℕ
need_of catalog m =
    let e = row_for catalog m in if e.min_vram_bytes == 0 then m.size_bytes else e.min_vram_bytes

abbrev pub size_of : List CatalogEntry → Model → ℕ
size_of catalog m = if m.size_bytes == 0 then need_of catalog m else m.size_bytes

-- A model that the loop of PickFittingModel does not pass over, for a node with so much memory.
unfoldable pub is_pickable : List CatalogEntry → Bool → ℕ → Model → Bool
unfolding row_for
is_pickable catalog tools avail m =
    not (str_eq (trim_space m.name) "")
    && not (tools && not (entry_supports_tools (row_for catalog m)))
    && not (ltb 0 avail && ltb 0 (need_of catalog m) && ltb avail (need_of catalog m))
    && not (ltb 0 avail && ltb 0 m.size_bytes && ltb avail m.size_bytes)

-- The smaller model, and at equal size the one that needs less.
unfoldable pub is_smaller : List CatalogEntry → Model → Model → Bool
unfolding row_for
is_smaller catalog m b =
    ltb (size_of catalog m) (size_of catalog b)
    || (size_of catalog m == size_of catalog b && ltb (need_of catalog m) (need_of catalog b))

unfoldable pub smaller : List CatalogEntry → Model → Option Model → Model
unfolding is_smaller
smaller catalog m none = m
smaller catalog m (some b) = if is_smaller catalog m b then m else b

unfoldable pub pick : List CatalogEntry → Bool → ℕ → Option Model → List Model → Option Model
unfolding is_pickable smaller
pick catalog tools avail best [] = best
pick catalog tools avail best (m ∷ ms) =
    pick catalog tools avail
      (if is_pickable catalog tools avail m then some (smaller catalog m best) else best) ms

-- PickFittingModel: the model whose name and tag it answers.
unfoldable pub pick_fitting_model : NodeView → Bool → List CatalogEntry → Option Model
unfolding pick
pick_fitting_model n tools catalog =
    pick (if is_empty catalog then default_catalog else catalog) tools (known_vram n) none n.models
