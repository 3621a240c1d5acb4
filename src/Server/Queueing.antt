-- ===== src/Server/Queueing.antt =====
-- The job that a submission leaves behind: handleSubmitJob of internal/server/server.go, and what
-- handleRoute shares with it.
use houdry.Prelude.{
  ℕ, String, true, ◌||◌, ◌≡◌, refl, sym, ◌∙◌, ap, subst, inl, inr, some, Bool-cases, str_eq,
  eq_refl, if◌then◌else◌, arith, is_some,
}
use houdry.Prelude.Results.{ok, Result-cases}
use houdry.Resources.{Requirements}
use houdry.Nodes.{list, lookup}
use houdry.Jobs.{Job, JobStore, Json, CreateError, create, new_job}
use houdry.Jobs as Queue
use houdry.Jobs.Store.{IsJobStore, create-ok, lookup-put-save}
use houdry.Jobs.Invariant.{create-IsJobStore}
use houdry.Scheduler.{select_node}
use houdry.Scheduler.Assignment.{placed, try_schedule_queued_lem}
use houdry.Server.Certificates.{Server, job_row, Credentials, authorized}
use houdry.Server.Agents.{scheduled}
use houdry.Server.Work.{JobRequest, handle_submit_job, queue_up, updated}

-- The job that Create makes of a request, for the requirements that it settles on.
abbrev pub made_of : ℕ → String → String → JobRequest → Requirements → Job
made_of now drawn job_type req p = new_job now drawn job_type req.node_id p req.payload

-- The job in the answer stands in the store under the drawn id: new, with the request's type, payload
-- and preferred node, and already pending on a node if selectNode picks one.
pub record IsSubmitted (now : ℕ) (drawn job_type : String) (req : JobRequest) (s after : Server)
    (j : Job) : Type 0 where
  pub requirements : Requirements
  pub created :
      (jobs : JobStore) × (create now drawn job_type req.node_id req.requirements req.payload s.jobs
        ≡ ok (jobs, made_of now drawn job_type req requirements))
  pub made :
      j
      ≡ placed
          (select_node (list s.store) (made_of now drawn job_type req requirements))
          (made_of now drawn job_type req requirements)
  pub stored : Queue.lookup drawn after.jobs ≡ some j
  pub same_nodes : after.store ≡ s.store

created_row :
    (now : ℕ) (drawn job_type : String) (req : JobRequest) (s : Server) (jobs : JobStore) (j : Job)
    → IsJobStore s.jobs
    → create now drawn job_type req.node_id req.requirements req.payload s.jobs ≡ ok (jobs, j)
    → (p : Requirements) × (j ≡ made_of now drawn job_type req p)
      × (Queue.lookup drawn (scheduled (record s { jobs = jobs })).jobs
          ≡ some (placed (select_node (list s.store) j) j))
unfolding scheduled
created_row now drawn job_type req s jobs j h made =
    let (p, is_j, is_t) =
      create-ok now drawn job_type req.node_id req.requirements req.payload s.jobs jobs j made in
    let valid =
      create-IsJobStore now drawn job_type req.node_id req.requirements req.payload s.jobs jobs j
        made h in
    let row : Queue.lookup drawn jobs ≡ some j =
      ap (Queue.lookup drawn) is_t
      ∙ lookup-put-save drawn drawn (made_of now drawn job_type req p) s.jobs
      ∙ ground (arith, eq_refl drawn, is_j) in
    (p, is_j, try_schedule_queued_lem (list s.store) jobs drawn j valid row)

new_id :
    (now : ℕ) (drawn job_type : String) (req : JobRequest) (p : Requirements) (j : Job)
    → j ≡ made_of now drawn job_type req p
    → j.id ≡ drawn
unfolding new_job
new_id now drawn job_type req p j e = ap (λ (x : Job). x.id) e

updated_row :
    (j k : Job) (drawn : String) (s : Server)
    → j.id ≡ drawn
    → Queue.lookup drawn s.jobs ≡ some k
    → updated j s ≡ job_row k
unfolding updated
updated_row j k drawn s same row =
    let at : Queue.lookup j.id s.jobs ≡ some k =
      subst (λ i. Queue.lookup i s.jobs ≡ some k) (sym same) row in
    rw (at, updated) refl

job_row_injective : (j k : Job) → job_row j ≡ job_row k → j ≡ k
job_row_injective j k e = cc

submitted :
    (now : ℕ) (drawn job_type : String) (req : JobRequest) (s : Server) (jobs : JobStore)
    (k j : Job)
    → IsJobStore s.jobs
    → create now drawn job_type req.node_id req.requirements req.payload s.jobs ≡ ok (jobs, k)
    → updated k (scheduled (record s { jobs = jobs })) ≡ job_row j
    → IsSubmitted now drawn job_type req s (scheduled (record s { jobs = jobs })) j
unfolding scheduled
submitted now drawn job_type req s jobs k j h made answer =
    let (p, is_k, row) = created_row now drawn job_type req s jobs k h made in
    let after = scheduled (record s { jobs = jobs }) in
    let shown =
      updated_row k (placed (select_node (list s.store) k) k) drawn after
        (new_id now drawn job_type req p k is_k) row in
    let is_j = job_row_injective j (placed (select_node (list s.store) k) k) (sym answer ∙ shown) in
    record {
      requirements = p;
      created = (jobs, made ∙ ap (λ x. ok (jobs, x)) is_k);
      made = subst (λ x. j ≡ placed (select_node (list s.store) x) x) is_k is_j;
      stored = row ∙ ap some (sym is_j);
      same_nodes = refl;
    }

pub queue_up-IsSubmitted :
    (now : ℕ) (drawn job_type : String) (req : JobRequest) (s : Server) (j : Job)
    → IsJobStore s.jobs
    → (queue_up now drawn job_type req s).1 ≡ job_row j
    → IsSubmitted now drawn job_type req s (queue_up now drawn job_type req s).0 j
unfolding queue_up
queue_up-IsSubmitted now drawn job_type req s j h answer =
    elim (Result-cases
      (create now drawn job_type req.node_id req.requirements req.payload s.jobs)) [
        | inl (e, is_e) ↦ absurd (ground arith)
        | inr ((jobs, k), made) ↦
            let opened : queue_up now drawn job_type req s ≡ (
              scheduled (record s { jobs = jobs }),
              updated k (scheduled (record s { jobs = jobs })),
            ) =
              rw (made, queue_up) refl in
            subst (λ x. IsSubmitted now drawn job_type req s x.0 j) (sym opened)
              (submitted now drawn job_type req s jobs k j h made
                (ap (λ x. x.1) (sym opened) ∙ answer))
      ]

-- The type of a submitted job.
abbrev pub type_of : JobRequest → String
type_of req = if str_eq req.job_type "" then "gpu.smoke" else req.job_type

submit_opened :
    (now : ℕ) (drawn : String) (cred : Credentials) (req : JobRequest) (s : Server) (j : Job)
    → (handle_submit_job now drawn cred (some req) s).1 ≡ job_row j
    → (authorized cred s ≡ true)
      × ((str_eq req.node_id "" || is_some (lookup req.node_id s.store)) ≡ true)
      × (handle_submit_job now drawn cred (some req) s ≡ queue_up now drawn (type_of req) req s)
unfolding handle_submit_job
submit_opened now drawn cred req s j h = elim (Bool-cases (authorized cred s)) [
  | inr a ↦ absurd (ground arith)
  | inl a ↦ elim (Bool-cases (str_eq req.node_id "" || is_some (lookup req.node_id s.store))) [
    | inr k ↦ absurd (ground arith)
    | inl k ↦ (a, k, ground arith)
  ]
]

-- A job is accepted only with the token and for a node that is known, if it names one. It is then
-- answered as it stands in the store under the drawn id: new, with what was asked for, and already
-- pending on the node that the scheduler picks, if it picks one.
pub handle_submit_job-IsSubmitted :
    (now : ℕ) (drawn : String) (cred : Credentials) (req : JobRequest) (s : Server) (j : Job)
    → IsJobStore s.jobs
    → (handle_submit_job now drawn cred (some req) s).1 ≡ job_row j
    → (authorized cred s ≡ true)
      × ((str_eq req.node_id "" || is_some (lookup req.node_id s.store)) ≡ true)
      × IsSubmitted now drawn
          (type_of req)
          req
          s
          (handle_submit_job now drawn cred (some req) s).0
          j
handle_submit_job-IsSubmitted now drawn cred req s j valid h =
    let (a, k, opened) = submit_opened now drawn cred req s j h in
    (
      a,
      k,
      subst (λ x. IsSubmitted now drawn (type_of req) req s x.0 j) (sym opened)
          (queue_up-IsSubmitted now drawn (type_of req) req s j valid
            (ap (λ x. x.1) (sym opened) ∙ h)),
    )
