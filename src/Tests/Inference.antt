-- ===== src/Tests/Inference.antt =====
-- The theorems on inference requests, runtimes and discovery at small requests.
use houdry.Prelude.{ℕ, String, true, false, ◌≡◌, refl, ◌↔◌, List, [], ◌∷◌, none, some, Some}
use houdry.Prelude.Int.{ℤ, pos, ◌<ℤ◌}
use houdry.Text.{trim_space}
use houdry.Model.{Identity, Model}
use houdry.Inference.{ChatMessage, InferRequest}
use houdry.Inference.Compact.{compact_slow_inference}
use houdry.Inference.Compacting.{IsCompact, compact_slow_inference-IsCompact}
use houdry.Inference.Context.{Shown, MetaValue, build_options, parse_num_ctx_env}
use houdry.Inference.Context.Resolving.{IsSettled, build_options_lem}
use houdry.Inference.Runtimes.{Runtime, TagRow, row_identity, loaded_set, listed_model}
use houdry.Inference.Choosing.{SameModel, listed_model-loaded}
use houdry.Discovery.{
  Info, Endpoint, Ip, pick_ip, http_url, endpoint_from_txt, txt_records, trim_slashes, complete,
  first_non_blank, default_path, unique,
}
use houdry.Discovery.RoundTrip.{endpoint_from_txt-records}
use houdry.Discovery.Endpoints.{IsDistinct, HasUrl, unique_lem}
use houdry.Tests.Data.{loaded_model}

abbrev said : String → String → ChatMessage
said role content = record {
  role = role;
  content = content;
  images = [];
  name = "";
  tool_call_id = "";
  tool_calls = [];
}

abbrev chat : InferRequest
chat = record {
  name = "llama";
  tag = "8b";
  prompt = "";
  messages = said "system" "be brief" ∷ said "user" "hi" ∷ [];
  images = [];
  tools = [];
  tool_choice = none;
  options = record { max_tokens = pos 0; keep_alive = ""; temperature = none; num_ctx = pos 0 };
}

compact_slow_inference-IsCompact_example : IsCompact chat (compact_slow_inference chat)
compact_slow_inference-IsCompact_example = compact_slow_inference-IsCompact chat

abbrev shown : Shown
shown = record {
  parameters = "";
  model_info = ("llama.context_length", MetaValue.positive 131_072) ∷ [];
}

build_options_lem_example :
    (n : ℤ) × ((build_options "" "http://127.0.0.1:11434"
        (some shown)
        "llama:8b"
        chat.options
        []).1.num_ctx
      ≡ some n)
    × (pos 0 <ℤ n)
    × IsSettled (parse_num_ctx_env "").0 (parse_num_ctx_env "").1 chat.options.num_ctx n
build_options_lem_example =
    build_options_lem "" "http://127.0.0.1:11434" "llama:8b" (some shown) chat.options []

abbrev daemon : Runtime
daemon = record { name = "ollama"; available = true; models = some (loaded_model ∷ []) }

abbrev absent : Runtime
absent = record { name = "vllm"; available = false; models = none }

abbrev wanted_model : Identity
wanted_model = record { name = "llama"; tag = "8b"; runtime = "" }

abbrev tag_row : String → TagRow
tag_row name = record {
  name = name;
  model = "";
  size = 1;
  digest = "";
  family = "";
  parameter_size = "";
}

listed_model-loaded_example :
    ((listed_model (loaded_set (tag_row "llama:8b" ∷ [])) (tag_row "llama:70b")).state ≡ "LOADED")
    ↔ Some (SameModel (row_identity (tag_row "llama:70b"))) (tag_row "llama:8b" ∷ [])
listed_model-loaded_example = listed_model-loaded (tag_row "llama:8b" ∷ []) (tag_row "llama:70b")

abbrev plane : Info
plane = record { name = "plane"; path = ""; version = "1.2"; auth_required = true; openai = true }

abbrev lan : Ip
lan = record { shown = "10.0.0.2"; is_v4 = true; is_unspecified = false; is_loopback = false }

abbrev show_8080 : ℕ → String
show_8080 port = "8080"

lan_picked : pick_ip (lan ∷ []) ≡ some lan
unfolding pick_ip
lan_picked = refl

endpoint_from_txt-records_example :
    (e : Endpoint) × (endpoint_from_txt show_8080 "plane" "host" 8_080
        (txt_records plane)
        (lan ∷ [])
        "mdns"
      ≡ some e)
    × (e.url ≡ trim_slashes (http_url show_8080 lan 8_080))
    × (e.path
        ≡ (complete (record e {
          path =
              first_non_blank (trim_space (first_non_blank plane.path default_path)) default_path;
        })).path)
    × (e.version ≡ trim_space plane.version)
    × (e.auth_required ≡ plane.auth_required)
    × (e.openai ≡ plane.openai)
endpoint_from_txt-records_example =
    endpoint_from_txt-records show_8080 plane "plane" "host" "mdns" 8_080 (lan ∷ []) lan lan_picked
      refl

abbrev found : String → String → Endpoint
found name source = record {
  name = name;
  url = "https://10.0.0.2:8080";
  path = "/v1";
  api = "https://10.0.0.2:8080/v1";
  version = "1.2";
  auth_required = true;
  openai = true;
  source = source;
}

abbrev both : List Endpoint
both = found "" "udp" ∷ found "plane" "mdns" ∷ []

unique_lem_example :
    IsDistinct (unique both)
    × (HasUrl "https://10.0.0.2:8080" (unique both) ↔ HasUrl "https://10.0.0.2:8080" both)
unique_lem_example = unique_lem "https://10.0.0.2:8080" both
