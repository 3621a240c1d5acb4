-- ===== src/Server/Refusals.antt =====
-- Error answers of the handlers of internal/server/server.go.
use houdry.Prelude.{sym, Bool, true, false, ◌≡◌, refl, subst, inl, inr, arith}
use houdry.Prelude.Results.{Result, ok, err}
use houdry.Nodes.{Node}
use houdry.Server.Certificates.{Server, Response, denied, node_row, job_row, no_content}
use houdry.Server.Agents.{handle_join, handle_heartbeat, handle_drain, handle_leave}
use houdry.Server.Work.{handle_submit_job, handle_claim_job, handle_admin_identity, sweep_once}
use houdry.Server.Requests.{
  Outside, ChatCall, Answer, plain, certified, routed, chatted, on_server, on_registrar, Request,
  serve, join, heartbeat, drain, leave, submit_job, claim_job, job_result, admin_identity, enroll,
  renew, prompt, chat, tick,
}
use houdry.Server.Enrolling.{Registrar, handle_enroll, handle_renew}
use houdry.Server.Registering.{IsRegistered, enroll-IsRegistered, renew-IsRegistered}
use houdry.Server.Prompts.{RouteAnswer, handle_route}
use houdry.Server.Prompted.{route_refused, is_refused, chat_refused}
use houdry.Server.Handout.{check-kept}
use houdry.Server.Harmless.{
  Same, IsHarmless, drain_row-IsHarmless, leave_row-IsHarmless, claim_row-IsHarmless,
  beat-IsHarmless, join-IsHarmless, by_id-IsHarmless, submit_job-IsHarmless, admin-IsHarmless,
}

-- Reports of results are left out.
abbrev pub is_result : Request → Bool
is_result (job_result call id body) = true
is_result _ = false

is_error : {A : Type 0} → Result Response A → Bool
is_error (err e) = true
is_error (ok a) = false

-- An answer that is an error. A chat request counts only if it is refused before its job is created.
unfoldable pub is_refusal : Answer → Bool
unfolding is_error
is_refusal (plain (denied code why)) = true
is_refusal (plain _) = false
is_refusal (certified r) = is_error r
is_refusal (routed r) = is_error r
is_refusal (chatted a) = is_refused a

-- A refusal comes with the registry and the jobs as they were.
abbrev Spares : Server → Registrar × Answer → Type 0
Spares s out = is_refusal out.1 ≡ true → Same s out.0.server

plain-Spares :
    (s : Server) (r : Registrar) (out : Server × Response)
    → IsHarmless s out
    → Spares s (on_server plain r out)
unfolding is_refusal
plain-Spares s r (t, denied code why) h e = h
plain-Spares s r (t, node_row n) h e = cc
plain-Spares s r (t, job_row j) h e = cc
plain-Spares s r (t, Response.left id) h e = cc
plain-Spares s r (t, no_content) h e = cc

registered-Spares :
    (s t : Server) (out : Registrar × Result Response Node)
    → Same s t
    → IsRegistered t out
    → Spares s (on_registrar out)
unfolding is_refusal
registered-Spares s t out h (inl (e, _)) k = subst (Same s) (sym e) h
registered-Spares s t out h (inr (now, n, _, f)) k = absurd (ground (arith, f))

routed-Spares :
    (s : Server) (r : Registrar) (out : Server × Result Response RouteAnswer)
    → ((e : Response) → out.1 ≡ err e → out.0 ≡ s)
    → Spares s (on_server routed r out)
unfolding is_refusal
routed-Spares s r (t, err e) h k = subst (Same s) (sym (h e refl)) (refl, refl)
routed-Spares s r (t, ok a) h k = cc

chatted-Spares : (o : Outside) (c : ChatCall) (r : Registrar) → Spares r.server (serve o (chat c) r)
unfolding serve is_refusal
chatted-Spares o c r e =
    subst (Same r.server)
      (sym (
        chat_refused o.number o.decode o.show c.now c.drawn o.routing c.seen c.ends c.fuel c.catalog
          c.credentials c.request c.extras r.server e))
      (refl, refl)

serve-Spares :
    (o : Outside) (q : Request) (r : Registrar)
    → is_result q ≡ false
    → Spares r.server (serve o q r)
unfolding serve handle_drain handle_leave handle_claim_job
serve-Spares o (join call body) r h =
    plain-Spares r.server r (handle_join call body r.server) (join-IsHarmless call body r.server)
serve-Spares o (heartbeat call body) r h =
    plain-Spares r.server r (handle_heartbeat call body r.server)
      (beat-IsHarmless call body r.server)
serve-Spares o (drain call body) r h =
    plain-Spares r.server r (handle_drain call body r.server)
      (by_id-IsHarmless true call.peer body r.server _ (drain_row-IsHarmless call.now r.server))
serve-Spares o (leave call body) r h =
    plain-Spares r.server r (handle_leave call body r.server)
      (by_id-IsHarmless true call.peer body r.server _ (leave_row-IsHarmless call.now r.server))
serve-Spares o (submit_job now drawn cred body) r h =
    plain-Spares r.server r (handle_submit_job now drawn cred body r.server)
      (submit_job-IsHarmless now drawn cred body r.server)
serve-Spares o (claim_job call body) r h =
    plain-Spares r.server r (handle_claim_job call body r.server)
      (by_id-IsHarmless false call.peer body r.server _ (claim_row-IsHarmless call.now r.server))
serve-Spares o (job_result call id body) r h = cc
serve-Spares o (admin_identity identity cred body) r h =
    plain-Spares r.server r (handle_admin_identity identity cred body r.server)
      (admin-IsHarmless identity cred body r.server)
serve-Spares o (enroll now ip body) r h =
    registered-Spares r.server r.server (handle_enroll o.parse_csr o.issue o.hash now ip body r)
      (refl, refl) (enroll-IsRegistered o.parse_csr o.issue o.hash now ip body r)
serve-Spares o (renew call body) r h =
    registered-Spares r.server _ (handle_renew o.parse_csr o.issue call body r)
      (check-kept true false call.peer r.server)
      (renew-IsRegistered o.parse_csr o.issue call body r)
serve-Spares o (prompt now drawn cred catalog body) r h =
    routed-Spares r.server r (handle_route o.encode now drawn cred catalog body r.server)
      (route_refused o.encode now drawn cred catalog body r.server)
serve-Spares o (chat c) r h = chatted-Spares o c r
serve-Spares o (tick now) r h = plain-Spares r.server r (sweep_once now r.server, no_content) tt

-- A request that is answered with an error leaves the registry and the jobs as they were, unless it
-- reports a job's result, or is a chat request whose job was created before the error.
pub serve-refused :
    (o : Outside) (q : Request) (r : Registrar)
    → is_result q ≡ false
    → is_refusal (serve o q r).1 ≡ true
    → ((serve o q r).0.server.store ≡ r.server.store)
      × ((serve o q r).0.server.jobs ≡ r.server.jobs)
serve-refused o q r h e = serve-Spares o q r h e
