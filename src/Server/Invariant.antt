-- ===== src/Server/Invariant.antt =====
-- The shape of the registry and the job store under the handlers of internal/server/server.go.
use houdry.Prelude.{
  subst, sym, ℕ, String, Bool, true, false, not, ◌&&◌, inl, inr, Option, none, some, str_eq,
  if◌then◌else◌, is_some,
}
use houdry.Prelude.Results.{Result, ok, err, Result-cases}
use houdry.Nodes.{lookup}
use houdry.Nodes.Status.{Identity}
use houdry.Server.Certificates.{
  Server, Response, Credentials, guarded, check_node_cert, authorized, denied,
}
use houdry.Server.Agents.{
  Call, JoinRequest, handle_join, handle_heartbeat, handle_drain, handle_leave, drain_row,
  leave_row, read_join_request, read_node_id, named,
}
use houdry.Server.Work.{
  JobRequest, ResultRequest, handle_submit_job, handle_claim_job, handle_job_result,
  handle_admin_identity, claim_row,
}
use houdry.Server.Requests.{
  Outside, Request, serve, join, heartbeat, drain, leave, submit_job, claim_job, job_result,
  admin_identity, enroll, renew, prompt, chat, tick,
}
use houdry.Nodes.{Node}
use houdry.Nodes.Registry.{Step-IsRegistry, upserts}
use houdry.Server.Enrolling.{Registrar, handle_enroll, handle_renew}
use houdry.Server.Registering.{IsRegistered, enroll-IsRegistered, renew-IsRegistered}
use houdry.Server.Prompted.{route-IsServer, chat-IsServer}
use houdry.Server.Parts.{
  IsServer, check-IsServer, guarded-Keeps, if-Keeps, admit-IsServer, take_beat-IsServer,
  drain_row-IsServer, leave_row-IsServer, queue_up-IsServer, claim_row-IsServer, report-IsServer,
  identify_row-IsServer, sweep_once-IsServer,
}

join-IsServer :
    (call : Call) (body : Option JoinRequest) (s : Server)
    → IsServer s
    → IsServer (handle_join call body s).0
unfolding handle_join
join-IsServer call body s h =
    guarded-Keeps (check_node_cert false true call.peer s) _
      (check-IsServer false true call.peer s h)
      λ id t k. elim (Result-cases (read_join_request call.now body)) [
        | inl (r, e) ↦ rw e k
        | inr (req, e) ↦ rw e (
            if-Keeps
              (not (str_eq req.inventory.node_id "") && not (str_eq req.inventory.node_id id)) _ _ k
              (admit-IsServer call (named id req) t k))
      ]

heartbeat-IsServer :
    (call : Call) (body : Option JoinRequest) (s : Server)
    → IsServer s
    → IsServer (handle_heartbeat call body s).0
unfolding handle_heartbeat
heartbeat-IsServer call body s h =
    guarded-Keeps (check_node_cert true false call.peer s) _
      (check-IsServer true false call.peer s h)
      λ id t k. elim (Result-cases (read_join_request call.now body)) [
        | inl (r, e) ↦ rw e k
        | inr (req, e) ↦ rw e (
            if-Keeps
              (not (str_eq req.inventory.node_id "") && not (str_eq req.inventory.node_id id)) _ _ k
              (take_beat-IsServer call (named id req) t k))
      ]

-- The handlers whose body is a node id, which must be the certificate's.
by_id-IsServer :
    (suspended : Bool) (call : Call) (body : Option String) (s : Server)
    (f : ℕ → String → Server → Server × Response)
    → ((id : String) (t : Server) → IsServer t → IsServer (f call.now id t).0)
    → IsServer s
    → IsServer
        (guarded (check_node_cert suspended false call.peer s) λ certified t.
          elim (read_node_id body) [
            | err r ↦ (t, r)
            | ok id ↦
                if not (str_eq id certified)
                then (t, denied 403 "node_id does not match certificate")
                else f call.now id t
          ]).0
by_id-IsServer suspended call body s f keeps h =
    guarded-Keeps (check_node_cert suspended false call.peer s) _
      (check-IsServer suspended false call.peer s h)
      λ certified t k. elim (Result-cases (read_node_id body)) [
        | inl (r, e) ↦ rw e k
        | inr (id, e) ↦ rw e (if-Keeps (not (str_eq id certified)) _ _ k (keeps id t k))
      ]

drain-IsServer :
    (call : Call) (body : Option String) (s : Server)
    → IsServer s
    → IsServer (handle_drain call body s).0
unfolding handle_drain
drain-IsServer call body s = by_id-IsServer true call body s drain_row (drain_row-IsServer call.now)

leave-IsServer :
    (call : Call) (body : Option String) (s : Server)
    → IsServer s
    → IsServer (handle_leave call body s).0
unfolding handle_leave
leave-IsServer call body s = by_id-IsServer true call body s leave_row (leave_row-IsServer call.now)

claim_job-IsServer :
    (call : Call) (body : Option String) (s : Server)
    → IsServer s
    → IsServer (handle_claim_job call body s).0
unfolding handle_claim_job
claim_job-IsServer call body s =
    by_id-IsServer false call body s claim_row (claim_row-IsServer call.now)

submit_job-IsServer :
    (now : ℕ) (drawn : String) (cred : Credentials) (body : Option JobRequest) (s : Server)
    → IsServer s
    → IsServer (handle_submit_job now drawn cred body s).0
unfolding handle_submit_job
submit_job-IsServer now drawn cred none s h = if-Keeps (not (authorized cred s)) _ _ h h
submit_job-IsServer now drawn cred (some req) s h = if-Keeps (not (authorized cred s)) _ _ h (
    if-Keeps (not (str_eq req.node_id "") && not (is_some (lookup req.node_id s.store))) _ _ h
      (queue_up-IsServer now drawn _ req s h))

job_result-IsServer :
    (call : Call) (id : String) (body : Option ResultRequest) (s : Server)
    → IsServer s
    → IsServer (handle_job_result call id body s).0
unfolding handle_job_result
job_result-IsServer call id none s h =
    guarded-Keeps (check_node_cert true false call.peer s) _
      (check-IsServer true false call.peer s h) λ c t k. k
job_result-IsServer call id (some req) s h =
    guarded-Keeps (check_node_cert true false call.peer s) _
      (check-IsServer true false call.peer s h) λ c t k. report-IsServer call id req c t k

admin-IsServer :
    (identity : Identity) (cred : Credentials) (body : Option String) (s : Server)
    → IsServer s
    → IsServer (handle_admin_identity identity cred body s).0
unfolding handle_admin_identity
admin-IsServer identity cred body s h =
    if-Keeps (not (authorized cred s)) _ _ h (elim (Result-cases (read_node_id body)) [
      | inl (r, e) ↦ rw e h
      | inr (id, e) ↦ rw e (identify_row-IsServer identity id s h)
    ])

registered-IsServer :
    (s : Server) (out : Registrar × Result Response Node)
    → IsRegistered s out
    → IsServer s
    → IsServer out.0.server
registered-IsServer s out (inl (e, _)) h = subst IsServer (sym e) h
registered-IsServer s out (inr (now, n, e, _)) h =
    subst IsServer (sym e)
      (record { rows = Step-IsRegistry (upserts now n) h.rows; queue = h.queue })

-- Each request that changes the cluster, whatever it carries and whoever sends it, and each tick of
-- the sweep keep a well-formed registry, each row under its own id and with a status, and a well-formed
-- job store, where a queued job has no node and a pending or running one has.
pub serve-IsServer :
    (o : Outside) (q : Request) (r : Registrar)
    → IsServer r.server
    → IsServer (serve o q r).0.server
unfolding serve
serve-IsServer o (join call body) r h = join-IsServer call body r.server h
serve-IsServer o (heartbeat call body) r h = heartbeat-IsServer call body r.server h
serve-IsServer o (drain call body) r h = drain-IsServer call body r.server h
serve-IsServer o (leave call body) r h = leave-IsServer call body r.server h
serve-IsServer o (submit_job now drawn cred body) r h =
    submit_job-IsServer now drawn cred body r.server h
serve-IsServer o (claim_job call body) r h = claim_job-IsServer call body r.server h
serve-IsServer o (job_result call id body) r h = job_result-IsServer call id body r.server h
serve-IsServer o (admin_identity identity cred body) r h =
    admin-IsServer identity cred body r.server h
serve-IsServer o (enroll now ip body) r h =
    registered-IsServer r.server (handle_enroll o.parse_csr o.issue o.hash now ip body r)
      (enroll-IsRegistered o.parse_csr o.issue o.hash now ip body r) h
serve-IsServer o (renew call body) r h =
    registered-IsServer _ (handle_renew o.parse_csr o.issue call body r)
      (renew-IsRegistered o.parse_csr o.issue call body r)
      (check-IsServer true false call.peer r.server h)
serve-IsServer o (prompt now drawn cred catalog body) r h =
    route-IsServer o.encode now drawn cred catalog body r.server h
serve-IsServer o (chat c) r h =
    chat-IsServer o.number o.decode o.show c.now c.drawn o.routing c.seen c.ends c.fuel c.catalog
      c.credentials c.request c.extras r.server h
serve-IsServer o (tick now) r h = sweep_once-IsServer now r.server h
