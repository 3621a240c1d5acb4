-- ===== src/Server/Requests.antt =====
-- The requests and the timer ticks that change the cluster, as routes of internal/server/server.go
-- and its sweep serve them: one after another. The routes that only read are in Views and Chat, and
-- reading a catalog writes at most the catalog's own file. Chat is for a cluster with a worker.
use houdry.Prelude.{ℕ, String, Bool, List, Option}
use houdry.Prelude.Int.{ℤ}
use houdry.Prelude.Results.{Result}
use houdry.Nodes.{Node}
use houdry.Nodes.Status.{Identity}
use houdry.Jobs.{Json, JobStore}
use houdry.Inference.{ToolCall}
use houdry.Routing.Scoring.{CatalogEntry, Candidate}
use houdry.Routing.Choosing.{Decision}
use houdry.Server.Certificates.{Server, Response, no_content, Credentials}
use houdry.Server.Agents.{
  Call, JoinRequest, handle_join, handle_heartbeat, handle_drain, handle_leave,
}
use houdry.Server.Work.{
  JobRequest, ResultRequest, handle_submit_job, handle_claim_job, handle_job_result,
  handle_admin_identity, sweep_once,
}
use houdry.Server.Enrolling.{Registrar, EnrollRequest, Csr, Issued, handle_enroll, handle_renew}
use houdry.Server.Prompts.{PromptRequest, RouteAnswer, handle_route}
use houdry.Server.Chat.{ChatRequest, Plan}
use houdry.Server.Answers.{ChatExtras, ChatAnswer, handle_chat}

-- What the handlers call outside the repository: certificates, hashing and JSON.
pub record Outside : Type 0 where
  pub parse_csr : String → Option Csr
  pub issue : ℕ → ℕ → String → Csr → Option Issued
  pub hash : String → String
  pub encode : Decision → Candidate → String
  pub number : String → ℤ
  pub decode : Json → List ToolCall
  pub show : ℕ → String
  pub routing : Plan → Json

-- A chat request, with what the store holds at each look of its wait and when its context ends.
pub record ChatCall : Type 0 where
  pub now : ℕ
  pub drawn : String
  pub catalog : List CatalogEntry
  pub credentials : Credentials
  pub request : ChatRequest
  pub extras : ChatExtras
  pub seen : ℕ → JobStore
  pub ends : ℕ → Bool
  pub fuel : ℕ

pub data Request : Type 0 where
  join : Call → Option JoinRequest → Request
  heartbeat : Call → Option JoinRequest → Request
  drain : Call → Option String → Request
  leave : Call → Option String → Request
  submit_job : ℕ → String → Credentials → Option JobRequest → Request
  claim_job : Call → Option String → Request
  job_result : Call → String → Option ResultRequest → Request
  admin_identity : Identity → Credentials → Option String → Request
  enroll : ℕ → String → Option EnrollRequest → Request
  renew : Call → Option String → Request
  prompt : ℕ → String → Credentials → List CatalogEntry → Option PromptRequest → Request
  chat : ChatCall → Request
  tick : ℕ → Request

pub data Answer : Type 0 where
  plain : Response → Answer
  certified : Result Response Node → Answer
  routed : Result Response RouteAnswer → Answer
  chatted : ChatAnswer → Answer

-- A handler that sees the server only.
abbrev pub on_server {ℓ} : {A : Type ℓ} → (A → Answer) → Registrar → Server × A → Registrar × Answer
on_server f r out = (record r { server = out.0 }, f out.1)

abbrev pub on_registrar : Registrar × Result Response Node → Registrar × Answer
on_registrar out = (out.0, certified out.1)

unfoldable pub serve : Outside → Request → Registrar → Registrar × Answer
serve o (join call body) r = on_server plain r (handle_join call body r.server)
serve o (heartbeat call body) r = on_server plain r (handle_heartbeat call body r.server)
serve o (drain call body) r = on_server plain r (handle_drain call body r.server)
serve o (leave call body) r = on_server plain r (handle_leave call body r.server)
serve o (submit_job now drawn cred body) r =
    on_server plain r (handle_submit_job now drawn cred body r.server)
serve o (claim_job call body) r = on_server plain r (handle_claim_job call body r.server)
serve o (job_result call id body) r = on_server plain r (handle_job_result call id body r.server)
serve o (admin_identity identity cred body) r =
    on_server plain r (handle_admin_identity identity cred body r.server)
serve o (enroll now ip body) r =
    on_registrar (handle_enroll o.parse_csr o.issue o.hash now ip body r)
serve o (renew call body) r = on_registrar (handle_renew o.parse_csr o.issue call body r)
serve o (prompt now drawn cred catalog body) r =
    on_server routed r (handle_route o.encode now drawn cred catalog body r.server)
serve o (chat c) r = on_server chatted r (
    handle_chat o.number o.decode o.show c.now c.drawn o.routing c.seen c.ends c.fuel c.catalog
      c.credentials c.request c.extras r.server)
serve o (tick now) r = on_server plain r (sweep_once now r.server, no_content)
