-- ===== src/Server/Prompts.antt =====
-- handleRoute of internal/server/server.go. How encoding/json writes a decision is a parameter.
use houdry.Prelude.{
  ℕ, String, Bool, true, false, not, List, [], ◌∷◌, Option, none, some, str_eq, if◌then◌else◌,
}
use houdry.Prelude.Results.{Result, ok, err}
use houdry.Text.{append, trim_space}
use houdry.Resources.{Requirements, normalize_model_fields}
use houdry.Jobs.{Job, Json, text}
use houdry.Jobs as Queue
use houdry.Routing.Scoring.{CatalogEntry, Candidate}
use houdry.Routing.Choosing.{Decision}
use houdry.Server.Certificates.{
  Server, Response, denied, node_row, job_row, left, no_content, Credentials, authorized,
}
use houdry.Server.Work.{JobRequest, queue_up}
use houdry.Server.Views.{route_prompt_opts}

-- CatalogEntry.Ref
unfoldable pub entry_ref : CatalogEntry → String
entry_ref e = if str_eq e.tag "" then e.name else append e.name (append ":" e.tag)

pub record PromptRequest : Type 0 where
  pub prompt : String
  pub runtime : String
  pub require_present : Bool
  pub execute : Bool
  pub node_id : String

pub record RouteAnswer : Type 0 where
  pub decision : Decision
  pub job : Option Job

-- decision.Selected.NodeID = req.PreferredNodeID
unfoldable pub preferring : String → Decision → Decision
preferring node d = if str_eq node "" then d else record d {
  selected = elim d.selected [ none ↦ none | some c ↦ some (record c { node_id = node }) ];
}

-- The requirements of the job that a decision leads to.
unfoldable pub selected_requirements : PromptRequest → CatalogEntry → Requirements
selected_requirements req e = normalize_model_fields (record {
  gpu_required = true;
  min_vram_bytes = e.min_vram_bytes;
  model_name = e.name;
  model_tag = e.tag;
  model_runtime = if str_eq req.runtime "" then e.runtime else req.runtime;
  require_model_present = req.require_present;
  model = "";
})

module _ (encode : Decision → Candidate → String) where
  unfoldable pub job_request : PromptRequest → Decision → Candidate → JobRequest
  unfolding selected_requirements entry_ref
  job_request req d c = record {
    job_type = "inference";
    node_id = c.node_id;
    requirements = selected_requirements req c.entry;
    payload =
        ("prompt", text req.prompt)
        ∷ ("model", text (entry_ref c.entry))
        ∷ ("route", Queue.other (encode d c))
        ∷ [];
  }

  -- What the answer of Create is turned into.
  unfoldable pub with_job : Decision → Server × Response → Server × Result Response RouteAnswer
  with_job d (s, job_row j) = (s, ok (record { decision = d; job = some j }))
  with_job d (s, denied code why) = (s, err (denied code why))
  with_job d (s, node_row n) = (s, err (node_row n))
  with_job d (s, left id) = (s, err (left id))
  with_job d (s, no_content) = (s, err no_content)

  -- The end of handleRoute, for the decision's deferral and selection.
  unfoldable pub execute_selected :
      ℕ
      → String
      → PromptRequest
      → Decision
      → Server
      → Bool
      → Option Candidate
      → Server × Result Response RouteAnswer
  unfolding job_request with_job
  execute_selected now drawn req d s false (some c) =
      with_job d (queue_up now drawn "inference" (job_request req d c) s)
  execute_selected now drawn req d s _ _ =
      (s, err (denied 409 "cannot execute: no routable decision"))

  -- handleRoute, with the catalog that routePrompt goes by.
  unfoldable pub handle_route :
      ℕ
      → String
      → Credentials
      → List CatalogEntry
      → Option PromptRequest
      → Server
      → Server × Result Response RouteAnswer
  unfolding preferring execute_selected
  handle_route now drawn cred catalog none s = (
    s,
    err (if not (authorized cred s) then denied 401 "unauthorized" else denied 400 "invalid json"),
  )
  handle_route now drawn cred catalog (some req) s =
      if not (authorized cred s)
      then (s, err (denied 401 "unauthorized"))
      else if str_eq (trim_space req.prompt) ""
      then (s, err (denied 400 "prompt is required"))
      else let d =
          preferring req.node_id
            (route_prompt_opts catalog req.prompt req.runtime req.require_present false false s) in
        if not req.execute
        then (s, ok (record { decision = d; job = none }))
        else execute_selected now drawn req d s d.deferred d.selected
