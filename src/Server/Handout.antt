-- ===== src/Server/Handout.antt =====
-- Who is handed a job by handleClaimJob of internal/server/server.go.
use houdry.Prelude.{
  ℕ, String, Bool, true, false, not, ◌&&◌, ◌≡◌, ◌≢◌, refl, sym, ◌∙◌, ap, subst, inl, inr, Option,
  none, some, Option-cases, Bool-cases, str_eq, eq_iff, if◌then◌else◌, arith,
}
use houdry.Prelude.Results.{Result, ok, err, Result-cases}
use houdry.Revocation as Denylist
use houdry.Nodes.{Node, lookup, set_status, with_status}
use houdry.Nodes.Status.{NodeStatus, is_ready, is_revoked, is_suspended}
use houdry.Nodes.Draining.{lookup-modify}
use houdry.Jobs.{Job, JobStore, claim, started, is_claimable}
use houdry.Jobs as Queue
use houdry.Jobs.Store.{IsJobStore, lookup-put-save}
use houdry.Jobs.Claiming.{Claims, nothing, taken, claim-Claims}
use houdry.Server.Certificates.{
  Server, Response, Certificate, guarded, check_node_cert, check_row, denied, job_row, node_row,
  no_content,
}
use houdry.Server.Agents.{Call, read_node_id}
use houdry.Server.Work.{handle_claim_job, claim_row, hand_out, may_work}

-- What a certificate that passes has: the CA's signature, a name, and a row of that name whose
-- identity is not revoked; its serial is not on the denylist, and the row is not suspended where that
-- matters.
pub record Admitted (suspended : Bool) (peer : Option Certificate) (s : Server) (id : String)
    : Type 0 where
  pub certificate : Certificate
  pub row : Node
  pub presented : peer ≡ some certificate
  pub signed : certificate.signed ≡ true
  pub named : certificate.common_name ≡ id
  pub stored : lookup id s.store ≡ some row
  pub trusted : is_revoked row.identity ≡ false
  pub listed : Denylist.is_revoked certificate.serial s.denylist ≡ false
  pub able : (is_suspended row.identity && not suspended) ≡ false

-- The check of a node that must be known changes neither the registry nor the jobs.
pub check-kept :
    (suspended unknown : Bool) (peer : Option Certificate) (s : Server)
    → ((check_node_cert suspended unknown peer s).0.store ≡ s.store)
      × ((check_node_cert suspended unknown peer s).0.jobs ≡ s.jobs)
unfolding check_node_cert check_row
check-kept suspended unknown none s = (refl, refl)
check-kept suspended unknown (some c) s = (ground arith, ground arith)

pub check-Admitted :
    (suspended : Bool) (peer : Option Certificate) (s : Server) (id : String)
    → (check_node_cert suspended false peer s).1 ≡ ok id
    → Admitted suspended peer s id
unfolding check_node_cert check_row
check-Admitted suspended none s id h = cc
check-Admitted suspended (some c) s id h = elim (Option-cases (lookup c.common_name s.store)) [
  | inl e ↦ absurd (ground arith)
  | inr (n, e) ↦ record {
    certificate = c;
    row = n;
    presented = refl;
    signed = ground arith;
    named = ground arith;
    stored = ground arith;
    trusted = ground arith;
    listed = ground arith;
    able = ground arith;
  }
]

check_denied :
    (suspended unknown : Bool) (peer : Option Certificate) (s : Server) (r : Response)
    → (check_node_cert suspended unknown peer s).1 ≡ err r
    → (code : ℕ) × (why : String) × (r ≡ denied code why)
unfolding check_node_cert check_row
check_denied suspended unknown none s r h = (401, "client certificate required", cc)
check_denied suspended unknown (some c) s (denied code why) h = (code, why, refl)
check_denied suspended unknown (some c) s (node_row n) h = absurd (ground arith)
check_denied suspended unknown (some c) s (job_row n) h = absurd (ground arith)
check_denied suspended unknown (some c) s (Response.left n) h = absurd (ground arith)
check_denied suspended unknown (some c) s no_content h = absurd (ground arith)

pub guarded-ok :
    (r : Server × Result Response String) (f : String → Server → Server × Response) (id : String)
    → r.1 ≡ ok id
    → guarded r f ≡ f id r.0
guarded-ok (s, ok i) f id h = cc
guarded-ok (s, err e) f id h = cc

pub guarded-err :
    (r : Server × Result Response String) (f : String → Server → Server × Response) (e : Response)
    → r.1 ≡ err e
    → guarded r f ≡ (r.0, e)
guarded-err (s, ok i) f e h = cc
guarded-err (s, err d) f e h = cc

-- The state after a job was handed to a node: the job was waiting for the node, it is stored as
-- running, and a READY node's row is BUSY with it.
pub record Handed (now : ℕ) (id : String) (k : Job) (s t : Server) : Type 0 where
  pub row : Node
  pub job : Job
  pub stored : lookup id s.store ≡ some row
  pub ready : row.status ≡ NodeStatus.ready
  pub waiting : Queue.lookup job.id s.jobs ≡ some job
  pub theirs : is_claimable id job ≡ true
  pub answer : k ≡ started now job
  pub running : Queue.lookup job.id t.jobs ≡ some k
  pub busy :
      lookup id t.store
      ≡ some (record row { status = NodeStatus.busy; current_job_id = job.id; last_seen = now })

was_ready : (s : NodeStatus) → is_ready s ≡ true → s ≡ NodeStatus.ready
was_ready NodeStatus.ready e = refl
was_ready _ e = cc

-- What handleClaimJob does with the outcome of Claim.
abbrev handed : ℕ → String → Server → JobStore × Option Job → Server × Response
handed now id s r = elim r.1 [
  | none ↦ (record s { jobs = r.0 }, no_content)
  | some j ↦ (
    record s { jobs = r.0; store = (set_status now id NodeStatus.busy j.id s.store).0 },
    job_row j,
  )
]

hand_out-Handed :
    (now : ℕ) (id : String) (k : Job) (n : Node) (s : Server)
    → IsJobStore s.jobs
    → lookup id s.store ≡ some n
    → may_work n ≡ true
    → (hand_out now id s).1 ≡ job_row k
    → Handed now id k s (hand_out now id s).0
unfolding hand_out may_work set_status with_status started
hand_out-Handed now id k n s hj row can h =
    go (claim now id s.jobs) (claim-Claims now id s.jobs hj) h
  where
    go :
        (r : JobStore × Option Job)
        → Claims now id s.jobs r
        → (handed now id s r).1 ≡ job_row k
        → Handed now id k s (handed now id s r).0
    go r (nothing _) h = absurd (ground arith)
    go r (taken j here mine old) h = record {
      row = n;
      job = j;
      stored = row;
      ready = was_ready n.status (ground arith);
      waiting = here;
      theirs = mine;
      answer = ground arith;
      running = ground (arith, lookup-put-save j.id j.id (started now j) s.jobs, eq_iff j.id j.id);
      busy =
          ground (
            arith,
            lookup-modify (with_status now NodeStatus.busy j.id) id id s.store,
            eq_iff id id,
          );
    }

claim_row_lem :
    (now : ℕ) (id : String) (k : Job) (s : Server)
    → IsJobStore s.jobs
    → (claim_row now id s).1 ≡ job_row k
    → Handed now id k s (claim_row now id s).0
unfolding claim_row
claim_row_lem now id k s hj = elim (Option-cases (lookup id s.store)) [
  | inl e ↦ rw (e, claim_row) λ h. absurd (ground arith)
  | inr (n, e) ↦ elim (Bool-cases (may_work n)) [
    | inl w ↦ rw (e, claim_row) (rw w (hand_out-Handed now id k n s hj e w))
    | inr w ↦ rw (e, claim_row) (rw w λ h. absurd (ground arith))
  ]
]

-- What follows the check of the certificate.
abbrev asked : ℕ → Option String → String → Server → Server × Response
asked now body certified s = elim (read_node_id body) [
  | err r ↦ (s, r)
  | ok id ↦
      if not (str_eq id certified)
      then (s, denied 403 "node_id does not match certificate")
      else claim_row now id s
]

denied≢job_row : (code : ℕ) (why : String) (k : Job) → denied code why ≢ job_row k
denied≢job_row code why k e = cc

asked_lem :
    (now : ℕ) (certified : String) (body : Option String) (k : Job) (s : Server)
    → IsJobStore s.jobs
    → (asked now body certified s).1 ≡ job_row k
    → (body ≡ some certified) × Handed now certified k s (asked now body certified s).0
unfolding read_node_id
asked_lem now certified none k s hj = λ h. absurd (ground arith)
asked_lem now certified (some id) k s hj = elim (Bool-cases (str_eq id "")) [
  | inl e ↦ rw (e, asked) λ h. absurd (ground arith)
  | inr e ↦ elim (Bool-cases (str_eq id certified)) [
    | inl f ↦
        rw (e, asked)
          (rw f λ h.
            let same = (eq_iff id certified).0 f in
            (
              ap some same,
              subst (λ i. Handed now i k s (claim_row now id s).0) same
                  (claim_row_lem now id k s hj h),
            ))
    | inr f ↦ rw (e, asked) (rw f λ h. absurd (ground arith))
  ]
]

-- A node is answered with a job only if its certificate passes, the body names that same node, and
-- the node is READY and neither suspended nor revoked. The job was pending for it and is now stored
-- as running, as answered, and the node's row is BUSY with that job.
pub handle_claim_job_lem :
    (call : Call) (body : Option String) (s : Server) (k : Job)
    → IsJobStore s.jobs
    → (handle_claim_job call body s).1 ≡ job_row k
    → (id : String) × (body ≡ some id)
      × Admitted false call.peer s id
      × Handed call.now id k s (handle_claim_job call body s).0
unfolding handle_claim_job
handle_claim_job_lem call body s k hj h = elim (Result-cases checked.1) [
  | inl (r, e) ↦
      let (code, why, is_denied) = check_denied false false call.peer s r e in
      absurd (
        denied≢job_row code why k
          (sym (ap (λ x. x.1) (guarded-err checked (asked call.now body) r e) ∙ is_denied) ∙ h))
  | inr (id, e) ↦
      let same = guarded-ok checked (asked call.now body) id e in
      let (is_id, hand) =
        asked_lem call.now id body k checked.0
          (subst IsJobStore (sym (check-kept false false call.peer s).1) hj)
          (sym (ap (λ x. x.1) same) ∙ h) in
      (
        id,
        is_id,
        check-Admitted false call.peer s id e,
        subst (λ x. Handed call.now id k s x.0) (sym same) (moved id hand),
      )
]
  where
    checked : Server × Result Response String
    checked = check_node_cert false false call.peer s

    moved : (id : String) {t : Server} → Handed call.now id k checked.0 t → Handed call.now id k s t
    moved id g = record {
      row = g.row;
      job = g.job;
      ready = g.ready;
      theirs = g.theirs;
      answer = g.answer;
      running = g.running;
      busy = g.busy;
      stored =
          subst (λ x. lookup id x ≡ some g.row) (check-kept false false call.peer s).0 g.stored;
      waiting =
          subst (λ x. Queue.lookup g.job.id x ≡ some g.job) (check-kept false false call.peer s).1
            g.waiting;
    }
