-- ===== src/Tests/Routes.antt =====
-- The theorems on routing at a small catalog.
use houdry.Prelude.{suc, ◌≤◌, String, true, false, ◌≡◌, refl, inl, [], ◌∷◌, some, arith, In}
use houdry.Prelude.Int.{pos, ◌<ℤ◌, ◌-ℤ◌, ◌+ℤ◌}
use houdry.Text.{
  lower, lower_code, trim_space, eq_codes, contains, has_prefix, equal_fold, is_space,
}
use houdry.Resources.{first_non_empty}
use houdry.Fitting.{has_runtime}
use houdry.Model.{Model, has_model, is_loaded, match, matches, equal_name_tag, normalize}
use houdry.Routing.Scoring.{
  Modality, Complexity, TaskProfile, CatalogEntry, NodeView, RouteRequest, Candidate,
  complexity_rank, skill, wanted, pair_score, entry_supports, entry_supports_tools, has_cap,
  node_eligible, score_pair, lacks_runtime, is_short_of_vram, tier, warm, warmth, losses,
}
use houdry.Routing.Choosing.{
  ranks_before, pairs, adjusted, route, ranked, is_offered, on_nodes, cons_some, fallback_present,
}
use houdry.Routing.Gates.{IsSuited, route-IsSuited}
use houdry.Routing.Ranking.{catalog_of, route_unbeaten, right_size_wins}
use houdry.Tests.Data.{loaded_model}

abbrev row : String → Complexity → CatalogEntry
row name c = record {
  name = name;
  tag = "";
  runtime = "";
  capabilities = "chat" ∷ [];
  max_complexity = c;
  min_vram_bytes = 0;
  priority = pos 0;
}

abbrev small_model : Model
small_model = record loaded_model { name = "small"; state = "AVAILABLE" }

abbrev pub view : NodeView
view = record {
  node_id = "n1";
  host = "";
  status = "READY";
  model_runtimes = "ollama" ∷ [];
  models = small_model ∷ loaded_model ∷ [];
  vram_total = 0;
  vram_available = 0;
}

abbrev pub request : RouteRequest
request = record {
  catalog = row "llama" Complexity.medium ∷ row "small" Complexity.low ∷ [];
  nodes = view ∷ [];
  prefer_loaded = true;
  allow_pull = true;
  require_present = false;
  preferred_runtime = "";
  image_attached = false;
  require_tools = false;
  allow_busy = false;
}

abbrev pub greeting : TaskProfile
greeting = record {
  modality = Modality.text;
  complexity = Complexity.low;
  capabilities = "chat" ∷ [];
  score = 0;
}

abbrev chosen : Candidate
chosen = record {
  entry = row "small" Complexity.low;
  node_id = "n1";
  host = "";
  score = pos 67;
  loaded = false;
  present = true;
}

-- The small model is selected though the larger one is loaded.
route_run : (route [] greeting request).selected ≡ some chosen
unfolding route adjusted pairs ranked ranks_before fallback_present match matches equal_name_tag
    normalize lower trim_space eq_codes first_non_empty is_offered entry_supports
    entry_supports_tools has_cap equal_fold lower_code on_nodes cons_some node_eligible score_pair
    pair_score lacks_runtime has_runtime is_short_of_vram has_model is_loaded complexity_rank tier
    skill warm warmth losses ◌-ℤ◌ ◌+ℤ◌ contains has_prefix is_space
route_run = refl

route-IsSuited_example : IsSuited (adjusted request greeting) request chosen
route-IsSuited_example = route-IsSuited [] greeting request chosen route_run

abbrev passed_over : Candidate
passed_over = record {
  entry = row "llama" Complexity.medium;
  node_id = "n1";
  host = "";
  score = pos 52;
  loaded = true;
  present = true;
}

considered : In passed_over (pairs (adjusted request greeting) request (catalog_of [] request))
unfolding adjusted pairs match matches equal_name_tag normalize lower trim_space eq_codes
    first_non_empty is_offered entry_supports entry_supports_tools has_cap equal_fold lower_code
    on_nodes cons_some node_eligible score_pair pair_score lacks_runtime has_runtime
    is_short_of_vram has_model is_loaded complexity_rank tier skill warm warmth losses ◌-ℤ◌ ◌+ℤ◌
    contains has_prefix is_space
considered = inl refl

route_unbeaten_example : ranks_before passed_over chosen ≡ false
route_unbeaten_example = route_unbeaten [] greeting request chosen passed_over route_run considered

there : has_model view.models (wanted (row "small" Complexity.low) request) ≡ true
unfolding has_model match matches equal_name_tag normalize lower trim_space eq_codes first_non_empty
there = refl

cold : is_loaded view.models (wanted (row "small" Complexity.low) request) ≡ false
unfolding is_loaded match matches equal_name_tag normalize lower trim_space eq_codes first_non_empty
cold = refl

hot : is_loaded view.models (wanted (row "llama" Complexity.medium) request) ≡ true
unfolding is_loaded match matches equal_name_tag normalize lower trim_space eq_codes first_non_empty
hot = refl

same_rank : complexity_rank Complexity.low ≡ complexity_rank greeting.complexity
same_rank = refl

one_above : suc (complexity_rank greeting.complexity) ≤ complexity_rank Complexity.medium
unfolding complexity_rank
one_above = omega arith

same_skill :
    skill (row "small" Complexity.low) greeting request
    ≡ skill (row "llama" Complexity.medium) greeting request
unfolding skill has_cap entry_supports_tools
same_skill = refl

right_size_wins_example :
    pair_score (row "llama" Complexity.medium) view greeting request
    <ℤ pair_score (row "small" Complexity.low) view greeting request
right_size_wins_example =
    right_size_wins (row "small" Complexity.low) (row "llama" Complexity.medium) view view greeting
      request same_rank one_above there cold hot same_skill refl refl
