-- ===== src/Server/Routed.antt =====
-- What the job of a prompt carries, by handleRoute of internal/server/server.go.
use houdry.Prelude.{
  ℕ, String, true, false, ◌≡◌, ◌∙◌, ap, inl, inr, List, some, Bool-cases, Option-cases, str_eq,
  eq_refl, if◌then◌else◌, arith,
}
use houdry.Prelude.Maps.{get}
use houdry.Resources.{Requirements, normalize_model_fields}
use houdry.Resources.Shorthand.{IsKept, IsSpelled, normalize-IsKept}
use houdry.Nodes.{list}
use houdry.Jobs.{Job, text, new_job}
use houdry.Jobs.Store.{create-inference}
use houdry.Scheduler.{select_node}
use houdry.Scheduler.Assignment.{placed}
use houdry.Routing.Scoring.{CatalogEntry, Candidate}
use houdry.Routing.Choosing.{Decision}
use houdry.Server.Certificates.{Server}
use houdry.Server.Views.{route_prompt_opts}
use houdry.Server.Prompts.{PromptRequest, preferring, entry_ref, selected_requirements, job_request}
use houdry.Server.Queueing.{IsSubmitted, made_of}

-- Where the job's node and model come from: the candidate that the router selected, on the node that
-- the request prefers instead, if it names one.
pub record IsPreferred (catalog : List CatalogEntry) (req : PromptRequest) (s : Server)
    (c : Candidate) : Type 0 where
  pub chosen : Candidate
  pub selected :
      (route_prompt_opts catalog req.prompt req.runtime req.require_present false false s).selected
      ≡ some chosen
  pub entry : c.entry ≡ chosen.entry
  pub node : c.node_id ≡ (if str_eq req.node_id "" then chosen.node_id else req.node_id)

-- What the job of a prompt carries, for the candidate.
pub record IsRouted (drawn : String) (req : PromptRequest) (c : Candidate) (j : Job) : Type 0 where
  pub id : j.id ≡ drawn
  pub kind : j.job_type ≡ "inference"
  pub preferred : j.preferred_node_id ≡ c.node_id
  pub gpu : j.requirements.gpu_required ≡ true
  pub vram : j.requirements.min_vram_bytes ≡ c.entry.min_vram_bytes
  pub name : j.requirements.model_name ≡ c.entry.name
  pub tag : j.requirements.model_tag ≡ c.entry.tag
  pub runtime :
      j.requirements.model_runtime
      ≡ (if str_eq req.runtime "" then c.entry.runtime else req.runtime)
  pub present : j.requirements.require_model_present ≡ req.require_present
  pub prompt : get "prompt" j.payload ≡ some (text req.prompt)
  pub model : get "model" j.payload ≡ some (text (entry_ref c.entry))

pub preferring-selected :
    (node : String) (d : Decision) (c : Candidate)
    → (preferring node d).selected ≡ some c
    → (x : Candidate) × (d.selected ≡ some x)
      × (c.entry ≡ x.entry)
      × (c.node_id ≡ (if str_eq node "" then x.node_id else node))
unfolding preferring
preferring-selected node d c h = elim (Option-cases d.selected) [
  | inl e ↦ absurd (ground arith)
  | inr (x, e) ↦ elim (Bool-cases (str_eq node "")) [
    | inl b ↦ (x, e, ground arith, ground arith)
    | inr b ↦ (x, e, ground arith, ground arith)
  ]
]

-- The requirements before they are normalised.
abbrev plain_requirements : PromptRequest → CatalogEntry → Requirements
plain_requirements req e = record {
  gpu_required = true;
  min_vram_bytes = e.min_vram_bytes;
  model_name = e.name;
  model_tag = e.tag;
  model_runtime = if str_eq req.runtime "" then e.runtime else req.runtime;
  require_model_present = req.require_present;
  model = "";
}

plain_requirements-IsSpelled :
    (req : PromptRequest) (e : CatalogEntry) → IsSpelled (plain_requirements req e)
plain_requirements-IsSpelled req e = ground (arith, eq_refl "")

requirements-IsKept :
    (req : PromptRequest) (e : CatalogEntry)
    → IsKept (plain_requirements req e) (normalize_model_fields (selected_requirements req e))
unfolding selected_requirements
requirements-IsKept req e =
    let plain = plain_requirements req e in
    let (k, spelled) = normalize-IsKept plain (plain_requirements-IsSpelled req e) in
    let (l, _) = normalize-IsKept (normalize_model_fields plain) spelled in
    record {
      gpu = l.gpu ∙ k.gpu;
      vram = l.vram ∙ k.vram;
      name = l.name ∙ k.name;
      tag = l.tag ∙ k.tag;
      runtime = l.runtime ∙ k.runtime;
      present = l.present ∙ k.present;
    }

-- What scheduling keeps of a job.
placed_kept :
    (node : String) (j : Job)
    → ((placed node j).id ≡ j.id)
      × ((placed node j).job_type ≡ j.job_type)
      × ((placed node j).preferred_node_id ≡ j.preferred_node_id)
      × ((placed node j).requirements ≡ j.requirements)
      × ((placed node j).payload ≡ j.payload)
unfolding placed
placed_kept node j = (ground arith, ground arith, ground arith, ground arith, ground arith)

pub submitted-IsRouted :
    (encode : Decision → Candidate → String) (now : ℕ) (drawn : String) (req : PromptRequest)
    (d : Decision) (c : Candidate) (s after : Server) (j : Job)
    → IsSubmitted now drawn "inference" (job_request encode req d c) s after j
    → IsRouted drawn req c j
unfolding job_request new_job get
submitted-IsRouted encode now drawn req d c s after j h =
    let body = job_request encode req d c in
    let made = made_of now drawn "inference" body h.requirements in
    let (id, kind, preferred, needs, payload) =
      placed_kept (select_node (list s.store) made) made in
    let asked = requirements-IsKept req c.entry in
    let settled =
      ap (λ (x : Job). x.requirements) h.made
      ∙ needs
      ∙ create-inference now drawn body.node_id body.requirements body.payload s.jobs h.created.0
          made h.created.1 asked.gpu in
    record {
      id = ap (λ (x : Job). x.id) h.made ∙ id;
      kind = ap (λ (x : Job). x.job_type) h.made ∙ kind;
      preferred = ap (λ (x : Job). x.preferred_node_id) h.made ∙ preferred;
      gpu = ap (λ (r : Requirements). r.gpu_required) settled ∙ asked.gpu;
      vram = ap (λ (r : Requirements). r.min_vram_bytes) settled ∙ asked.vram;
      name = ap (λ (r : Requirements). r.model_name) settled ∙ asked.name;
      tag = ap (λ (r : Requirements). r.model_tag) settled ∙ asked.tag;
      runtime = ap (λ (r : Requirements). r.model_runtime) settled ∙ asked.runtime;
      present = ap (λ (r : Requirements). r.require_model_present) settled ∙ asked.present;
      prompt = ap (λ (x : Job). get "prompt" x.payload) h.made ∙ ap (λ p. get "prompt" p) payload;
      model = ap (λ (x : Job). get "model" x.payload) h.made ∙ ap (λ p. get "model" p) payload;
    }
