-- ===== src/Server/Work.antt =====
-- The handlers of internal/server/server.go about jobs, handleAdminIdentity of
-- internal/server/enroll.go, and one tick of sweepOffline.
use houdry.Prelude.{
  String, Bool, true, false, not, ◌&&◌, ◌||◌, ℕ, List, [], ◌∷◌, Option, none, some, str_eq, is_some,
  if◌then◌else◌,
}
use houdry.Prelude.Maps.{Map}
use houdry.Prelude.Results.{ok, err}
use houdry.Resources.{Requirements}
use houdry.Nodes.{Node, lookup, set_status, set_identity, mark_stale_offline}
use houdry.Nodes.Status.{NodeStatus, Identity, is_ready, is_suspended, is_revoked}
use houdry.Jobs.{
  Job, JobStore, Json, CreateError, unsupported_type, model_required, prompt_required, create,
  claim, complete, fail_running_for_node,
}
use houdry.Jobs as Queue
use houdry.Revocation.{revoke}
use houdry.Server.Certificates.{
  Server, Response, denied, node_row, job_row, no_content, guarded, check_node_cert, Credentials,
  authorized,
}
use houdry.Server.Agents.{Call, scheduled, read_node_id, answered}

pub record JobRequest : Type 0 where
  pub job_type : String
  pub node_id : String
  pub requirements : Requirements
  pub payload : Map Json

-- The text of Create's error, without the quoted type of an unsupported one.
reason : CreateError → String
reason unsupported_type = "unsupported job type"
reason model_required = "inference jobs require requirements.model or model_name"
reason prompt_required = "inference jobs require payload.prompt"

-- The job in the answer: as it stands after the scheduler ran.
unfoldable pub updated : Job → Server → Response
updated j s = elim (Queue.lookup j.id s.jobs) [ none ↦ job_row j | some k ↦ job_row k ]

-- Create under the id that is drawn, and the scheduler.
unfoldable pub queue_up : ℕ → String → String → JobRequest → Server → Server × Response
unfolding reason updated scheduled
queue_up now drawn job_type req s =
    elim (create now drawn job_type req.node_id req.requirements req.payload s.jobs) [
      | err e ↦ (s, denied 400 (reason e))
      | ok (jobs, j) ↦ let after = scheduled (record s { jobs = jobs }) in (after, updated j after)
    ]

-- handleSubmitJob
unfoldable pub handle_submit_job :
    ℕ → String → Credentials → Option JobRequest → Server → Server × Response
unfolding queue_up
handle_submit_job now drawn cred body s =
    if not (authorized cred s) then (s, denied 401 "unauthorized") else elim body [
      | none ↦ (s, denied 400 "invalid json")
      | some req ↦
          if not (str_eq req.node_id "") && not (is_some (lookup req.node_id s.store))
          then (s, denied 400 "unknown node_id")
          else queue_up now drawn (if str_eq req.job_type "" then "gpu.smoke" else req.job_type) req
              s
    ]

-- A node that may take work.
unfoldable pub may_work : Node → Bool
may_work n = not (not (is_ready n.status) || is_suspended n.identity || is_revoked n.identity)

unfoldable pub hand_out : ℕ → String → Server → Server × Response
hand_out now id s =
    let (jobs, found) = claim now id s.jobs in
    elim found [
      | none ↦ (record s { jobs = jobs }, no_content)
      | some j ↦ (
        record s { jobs = jobs; store = (set_status now id NodeStatus.busy j.id s.store).0 },
        job_row j,
      )
    ]

unfoldable pub claim_row : ℕ → String → Server → Server × Response
unfolding may_work hand_out
claim_row now id s = elim (lookup id s.store) [
  | none ↦ (s, denied 404 "node not registered")
  | some n ↦ if not (may_work n) then (s, no_content) else hand_out now id s
]

-- handleClaimJob
unfoldable pub handle_claim_job : Call → Option String → Server → Server × Response
unfolding claim_row read_node_id
handle_claim_job call body s = guarded (check_node_cert false false call.peer s) λ certified s.
    elim (read_node_id body) [
      | err r ↦ (s, r)
      | ok id ↦
          if not (str_eq id certified)
          then (s, denied 403 "node_id does not match certificate")
          else claim_row call.now id s
    ]

pub record ResultRequest : Type 0 where
  pub succeeded : Bool
  pub result : Map Json
  pub error : String
  pub node_id : String

-- The node that a result frees.
unfoldable pub freed : ResultRequest → Job → String
freed req j = if str_eq req.node_id "" then j.node_id else req.node_id

unfoldable pub take_result : ℕ → String → ResultRequest → Job → Server → Server × Response
unfolding freed scheduled
take_result now certified req j s =
    let node = freed req j in
    if not (str_eq node "") && not (str_eq node certified)
    then (s, denied 403 "node_id does not match certificate")
    else if str_eq node ""
    then (scheduled s, job_row j)
    else (
      scheduled (record s { store = (set_status now node NodeStatus.ready "" s.store).0 }),
      job_row j,
    )

-- The body of handleJobResult once its request is read.
unfoldable pub report : Call → String → ResultRequest → String → Server → Server × Response
unfolding take_result
report call id req certified s =
    let (jobs, found) = complete call.now id req.succeeded req.result req.error s.jobs in
    elim found [
      | none ↦ (record s { jobs = jobs }, denied 404 "job not found")
      | some j ↦ take_result call.now certified req j (record s { jobs = jobs })
    ]

-- handleJobResult: the job is completed before its node is compared with the certificate.
unfoldable pub handle_job_result : Call → String → Option ResultRequest → Server → Server × Response
unfolding report
handle_job_result call id body s = guarded (check_node_cert true false call.peer s) λ certified s.
    elim body [ none ↦ (s, denied 400 "invalid json") | some req ↦ report call id req certified s ]

-- Revoking a node whose certificate is known puts its serial on the denylist.
unfoldable pub denylisted : Identity → String → Node → Server → Server
denylisted identity id n s =
    if is_revoked identity && not (str_eq n.cert_serial "")
    then record s { denylist = (revoke n.cert_serial id s.denylist).0 }
    else s

unfoldable pub identify_row : Identity → String → Server → Server × Response
unfolding denylisted answered
identify_row identity id s = elim (lookup id s.store) [
  | none ↦ (s, denied 404 "node not registered")
  | some n ↦
      let (store, row) = answered (set_identity id identity s.store) in
      (record (denylisted identity id n s) { store = store }, node_row row)
]

-- handleAdminIdentity
unfoldable pub handle_admin_identity :
    Identity → Credentials → Option String → Server → Server × Response
unfolding identify_row read_node_id
handle_admin_identity identity cred body s =
    if not (authorized cred s)
    then (s, denied 401 "unauthorized")
    else elim (read_node_id body) [ err r ↦ (s, r) | ok id ↦ identify_row identity id s ]

unfoldable pub fail_for_all : ℕ → List String → JobStore → JobStore
fail_for_all now [] js = js
fail_for_all now (id ∷ ids) js =
    fail_for_all now ids (fail_running_for_node now id "node heartbeat timeout" js).0

-- One tick of sweepOffline
unfoldable pub sweep_once : ℕ → Server → Server
unfolding fail_for_all scheduled
sweep_once now s =
    let (store, changed) = mark_stale_offline now s.store in
    scheduled (record s { store = store; jobs = fail_for_all now changed s.jobs })
