-- ===== src/Server/Chat.antt =====
-- internal/server/openai_chat.go: the plan of handleChatCompletions, from a request that was read to
-- the job that it creates, and the models that handleOpenAIModels lists. Chat on the control plane's
-- own machine, for a cluster without a worker, is left out.
use houdry.Prelude.{
  ℕ, String, Bool, true, false, not, ◌&&◌, ◌||◌, List, [], ◌∷◌, ◌++◌, Option, none, some, str_eq,
  any, find, is_some, if◌then◌else◌,
}
use houdry.Prelude.Int.{pos}
use houdry.Prelude.Results.{Result, ok, err}
use houdry.Text.{equal_fold}
use houdry.Model.{Model, parse_ref, ref, identity}
use houdry.Resources.{Requirements, no_requirements, normalize_model_fields}
use houdry.Nodes.{Node, node_id, models_of, list}
use houdry.Nodes.Status.{is_ready, is_busy, is_draining}
use houdry.Jobs.{Job}
use houdry.Jobs.Status.{JobStatus}
use houdry.Scheduler.{select_node}
use houdry.Routing.Scoring.{CatalogEntry, Candidate, Complexity, entry_supports_tools}
use houdry.Routing.Choosing.{Decision}
use houdry.Routing.Catalog.{pick_fitting_model}
use houdry.OpenAi.{Message, is_auto_model, validate_chat_request, last_user_text}
use houdry.Server.Certificates.{Server}
use houdry.Server.Views.{view_of, route_prompt_opts}

pub record ChatRequest : Type 0 where
  pub model : String
  pub messages : List Message
  pub has_tools : Bool

-- A node that runs an agent and takes or finishes work.
unfoldable pub is_gpu_worker : Node → Bool
is_gpu_worker n =
    not (str_eq n.agent_version "")
    && (is_ready n.status || is_busy n.status || is_draining n.status)

-- firstGPUWorker; hasGPUWorker is whether there is one.
unfoldable pub first_gpu_worker : Server → Option Node
unfolding is_gpu_worker
first_gpu_worker s = find is_gpu_worker (list s.store)

-- anyREADYNode
unfoldable pub any_ready_node : Server → Bool
any_ready_node s = any (λ (n : Node). is_ready n.status) (list s.store)

-- pickNodeModel
unfoldable pub pick_node_model : Node → Bool → List CatalogEntry → Option Model
pick_node_model n tools catalog = pick_fitting_model (view_of n) tools catalog

-- catalogMinVRAM
unfoldable pub catalog_min_vram : List CatalogEntry → Node → String → String → ℕ
catalog_min_vram catalog n name tag =
    elim (find (λ (e : CatalogEntry). equal_fold e.name name && equal_fold e.tag tag) catalog) [
      | some e ↦ e.min_vram_bytes
      | none ↦
          elim (find (λ (m : Model). equal_fold m.name name && equal_fold m.tag tag)
            (models_of n)) [ some m ↦ m.size_bytes | none ↦ 0 ]
    ]

-- What the handler has settled when it creates the job.
pub record Plan : Type 0 where
  pub model_name : String
  pub model_tag : String
  pub runtime : String
  pub node : String
  pub min_vram : ℕ
  pub tools : Bool

pub data Refusal : Type 0 where
  invalid_messages unsupported_modality no_suitable_node : Refusal
  invalid_model model_no_tools model_unavailable : Refusal

-- The decision for a model that is chosen by the router, and whether the tools are kept: without a
-- model for them they are dropped, if that helps.
unfoldable pub decide_auto : List CatalogEntry → String → Bool → Server → Decision × Bool
decide_auto catalog signal tools s =
    let first = route_prompt_opts catalog signal "" true tools true s in
    let second = route_prompt_opts catalog signal "" true false true s in
    if tools && not (is_some first.selected)
    then (second, not (is_some second.selected))
    else (first, tools)

-- Without a decision, a model that fits on the first worker.
unfoldable pub plan_fallback : List CatalogEntry → Bool → Option Node → Result Refusal Plan
unfolding pick_node_model catalog_min_vram
plan_fallback catalog tools none = err no_suitable_node
plan_fallback catalog tools (some n) = elim (pick_node_model n tools catalog) [
  | none ↦ err no_suitable_node
  | some m ↦ ok (record {
    model_name = m.name;
    model_tag = m.tag;
    runtime = "";
    node = node_id n;
    min_vram = catalog_min_vram catalog n m.name m.tag;
    tools = tools;
  })
]

unfoldable pub plan_decided :
    List CatalogEntry → Server → Decision → Bool → Option Candidate → Result Refusal Plan
unfolding plan_fallback first_gpu_worker
plan_decided catalog s d tools none =
    if d.deferred
    then err unsupported_modality
    else plan_fallback catalog tools (first_gpu_worker s)
plan_decided catalog s d tools (some c) =
    if d.deferred
    then err unsupported_modality
    else ok (record {
      model_name = c.entry.name;
      model_tag = c.entry.tag;
      runtime = c.entry.runtime;
      node = c.node_id;
      min_vram = c.entry.min_vram_bytes;
      tools = tools;
    })

unfoldable pub plan_auto : List CatalogEntry → String → Bool → Server → Result Refusal Plan
unfolding decide_auto plan_decided
plan_auto catalog signal tools s =
    let (d, kept) = decide_auto catalog signal tools s in plan_decided catalog s d kept d.selected

-- A row of the catalog with nothing but a name and a tag.
abbrev bare_entry : String → String → CatalogEntry
bare_entry name tag = record {
  name = name;
  tag = tag;
  runtime = "";
  capabilities = [];
  max_complexity = Complexity.other "";
  min_vram_bytes = 0;
  priority = pos 0;
}

-- The job that is only scored: Job{Requirements: jobReq}.
abbrev scored_job : Requirements → Job
scored_job r = record {
  id = "";
  job_type = "";
  status = JobStatus.other "";
  node_id = "";
  preferred_node_id = "";
  requirements = r;
  payload = [];
  created_at = 0;
  started_at = 0;
  finished_at = 0;
  result = [];
  error = "";
}

-- The requirements of the job.
unfoldable pub chat_requirements : String → String → String → ℕ → Requirements
chat_requirements name tag runtime vram = normalize_model_fields (record no_requirements {
  gpu_required = true;
  min_vram_bytes = vram;
  model_name = name;
  model_tag = tag;
  model_runtime = runtime;
})

unfoldable pub plan_explicit : String → Bool → Server → Result Refusal Plan
unfolding chat_requirements any_ready_node
plan_explicit model tools s =
    let id = parse_ref model in
    let node = select_node (list s.store) (scored_job (chat_requirements id.name id.tag "" 0)) in
    if str_eq id.name ""
    then err invalid_model
    else if tools && not (entry_supports_tools (bare_entry id.name id.tag))
    then err model_no_tools
    else if str_eq node ""
    then err (if any_ready_node s then model_unavailable else no_suitable_node)
    else ok (record {
      model_name = id.name;
      model_tag = id.tag;
      runtime = "";
      node = node;
      min_vram = 0;
      tools = tools;
    })

-- handleChatCompletions up to the job, with the catalog that it routes over.
unfoldable pub plan_chat : List CatalogEntry → ChatRequest → Server → Result Refusal Plan
unfolding plan_auto plan_explicit
plan_chat catalog req s =
    if is_some (validate_chat_request req.messages)
    then err invalid_messages
    else if is_auto_model req.model
    then plan_auto catalog (last_user_text req.messages) req.has_tools s
    else plan_explicit req.model req.has_tools s

add_model : List String → String → List String
add_model ids id = if str_eq id "" || any (λ x. str_eq x id) ids then ids else ids ++ id ∷ []

add_models : List String → List Model → List String
unfolding add_model
add_models ids [] = ids
add_models ids (m ∷ ms) = add_models (add_model ids (ref (identity m))) ms

unfoldable pub add_nodes : List String → List Node → List String
unfolding add_models is_gpu_worker
add_nodes ids [] = ids
add_nodes ids (n ∷ ns) =
    add_nodes (if is_gpu_worker n then add_models ids (models_of n) else ids) ns

-- handleOpenAIModels on a cluster with a worker.
unfoldable pub openai_models : Server → List String
unfolding add_nodes
openai_models s = add_nodes ("auto" ∷ []) (list s.store)
