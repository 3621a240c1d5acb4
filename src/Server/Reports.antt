-- ===== src/Server/Reports.antt =====
-- What handleJobResult of internal/server/server.go does to the job that a result is reported for.
use houdry.Prelude.{
  ℕ, String, Bool, true, false, not, ◌&&◌, ◌≡◌, refl, sym, ◌∙◌, ap, subst, inl, inr, some,
  Bool-cases, str_eq, eq_iff, if◌then◌else◌, arith,
}
use houdry.Prelude.Results.{Result, ok}
use houdry.Nodes.{list, set_status}
use houdry.Nodes.Status.{NodeStatus}
use houdry.Jobs.{Job, JobStore, complete, completed}
use houdry.Jobs as Queue
use houdry.Jobs.Status.{is_queued}
use houdry.Jobs.Store.{IsJobStore, lookup-complete}
use houdry.Jobs.Lifecycle.{completes}
use houdry.Jobs.Invariant.{Step-IsJobStore}
use houdry.Scheduler.Assignment.{placed, try_schedule_queued_lem}
use houdry.Server.Certificates.{Server, Response, check_node_cert, denied, job_row}
use houdry.Server.Agents.{Call, scheduled}
use houdry.Server.Work.{ResultRequest, handle_job_result, report, take_result, freed}
use houdry.Server.Handout.{guarded-ok, check-kept}

-- A job that is not queued is left alone by the scheduler at the end of a handler.
scheduled_keeps :
    (id : String) (j : Job) (s : Server)
    → IsJobStore s.jobs
    → is_queued j.status ≡ false
    → Queue.lookup id s.jobs ≡ some j
    → Queue.lookup id (scheduled s).jobs ≡ some j
unfolding scheduled placed
scheduled_keeps id j s h q row =
    try_schedule_queued_lem (list s.store) s.jobs id j h row ∙ ap some (ground arith)

take_result_keeps :
    (now : ℕ) (certified : String) (req : ResultRequest) (j k : Job) (id : String) (s : Server)
    → IsJobStore s.jobs
    → is_queued k.status ≡ false
    → Queue.lookup id s.jobs ≡ some k
    → Queue.lookup id (take_result now certified req j s).0.jobs ≡ some k
unfolding take_result
take_result_keeps now certified req j k id s h q row = elim (Bool-cases (str_eq (freed req j) "")) [
  | inl e ↦ rw e (scheduled_keeps id k s h q row)
  | inr e ↦ elim (Bool-cases (str_eq (freed req j) certified)) [
    | inl f ↦
        rw (e, f)
          (scheduled_keeps id k
            (record s { store = (set_status now (freed req j) NodeStatus.ready "" s.store).0 }) h q
            row)
    | inr f ↦ rw (e, f) row
  ]
]

-- The response to a result, by the node that it is about and the certificate's.
abbrev pub result_response : String → ResultRequest → Job → Response
result_response certified req j =
    if not (str_eq (freed req j) "") && not (str_eq (freed req j) certified)
    then denied 403 "node_id does not match certificate"
    else job_row j

take_result_response :
    (now : ℕ) (certified : String) (req : ResultRequest) (j : Job) (s : Server)
    → (take_result now certified req j s).1 ≡ result_response certified req j
unfolding take_result
take_result_response now certified req j s = ground arith

-- What holds of the server and the response after a result.
abbrev IsReported : Call → String → String → ResultRequest → Job → Server × Response → Type 0
IsReported call id certified req j r =
    (Queue.lookup id r.0.jobs ≡ some (completed call.now req.succeeded req.result req.error j))
    × (r.1
        ≡ result_response certified req (completed call.now req.succeeded req.result req.error j))

not_queued :
    (now : ℕ) (good : Bool) (req : ResultRequest) (j : Job)
    → is_queued (completed now good req.result req.error j).status ≡ false
unfolding completed
not_queued now true req j = refl
not_queued now false req j = refl

answer-complete :
    (now : ℕ) (id : String) (req : ResultRequest) (js : JobStore) (j : Job)
    → Queue.lookup id js ≡ some j
    → (complete now id req.succeeded req.result req.error js).1
      ≡ some (completed now req.succeeded req.result req.error j)
unfolding complete
answer-complete now id req js j row = rw (row, complete) refl

report-IsReported :
    (call : Call) (id certified : String) (req : ResultRequest) (s : Server) (j : Job)
    → IsJobStore s.jobs
    → Queue.lookup id s.jobs ≡ some j
    → IsReported call id certified req j (report call id req certified s)
unfolding report
report-IsReported call id certified req s j h row =
    let k : Job = completed call.now req.succeeded req.result req.error j in
    let after : Server = record s {
      jobs = (complete call.now id req.succeeded req.result req.error s.jobs).0;
    } in
    let is_k : Queue.lookup id after.jobs ≡ some k = ground (
      arith,
      lookup-complete call.now id req.succeeded req.result req.error id s.jobs,
      eq_iff id id,
    ) in
    rw (answer-complete call.now id req s.jobs j row, report)
      ((
        take_result_keeps call.now certified req k k id after
            (Step-IsJobStore (completes call.now id req.succeeded req.result req.error) h)
            (not_queued call.now req.succeeded req j) is_k,
        take_result_response call.now certified req k after,
      ))

-- A result that a certified node reports, suspended or not, finishes the job that it names, whichever
-- node the job was given to and whatever status it has, also where the answer is that the node is
-- not the certificate's.
pub handle_job_result_lem :
    (call : Call) (id certified : String) (req : ResultRequest) (s : Server) (j : Job)
    → IsJobStore s.jobs
    → (check_node_cert true false call.peer s).1 ≡ ok certified
    → Queue.lookup id s.jobs ≡ some j
    → let k = completed call.now req.succeeded req.result req.error j in
      (Queue.lookup id (handle_job_result call id (some req) s).0.jobs ≡ some k)
      × ((handle_job_result call id (some req) s).1 ≡ result_response certified req k)
unfolding handle_job_result
handle_job_result_lem call id certified req s j h passed row =
    let checked : Server × Result Response String = check_node_cert true false call.peer s in
    let (rows, jobs) = check-kept true false call.peer s in
    subst (IsReported call id certified req j) (sym (guarded-ok checked _ certified passed)) (
      report-IsReported call id certified req checked.0 j (subst IsJobStore (sym jobs) h)
        (subst (λ x. Queue.lookup id x ≡ some j) (sym jobs) row))
