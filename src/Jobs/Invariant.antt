-- ===== src/Jobs/Invariant.antt =====
-- Histories of operations on the job store of internal/server/jobs.go.
use houdry.Prelude.{
  ℕ, String, Bool, true, false, ◌≡◌, ◌∙◌, refl, subst, ◌⊎◌, inl, inr, Option, some, arith,
  Option-cases, Bool-cases, str_eq, eq_refl, All-of_In,
}
use houdry.Prelude.Results.{ok}
use houdry.Prelude.Maps.{Map, get, put, values}
use houdry.Prelude.Keyed.{map_values-IsKeyed, All-map_values, In-of_get, key_of_get}
use houdry.Jobs.Status.{JobStatus, is_queued}
use houdry.Jobs.Claiming.{Claims, nothing, taken, claim-Claims}
use houdry.Jobs.Lifecycle.{
  Step, creates, assigns, claims, completes, fails, Step-Follows, Transition, stays, assigned,
  claimed, lost, succeeds, reported,
}
use houdry.Jobs.Store.{
  IsAssigned, IsJobStore, job_id, put_save-IsJobStore, jobs-fail_in_flight, create-ok,
}
use houdry.Jobs.{
  Job, JobStore, Json, lookup, create, new_job, save, assign, to_assign, assign_job, claim, started,
  is_claimable, complete, completed, fail_in_flight, fail_one, is_in_flight,
}
use houdry.Resources.{Requirements}

-- A write under the key that a lookup used.
write-IsJobStore :
    (id : String) (j k : Job) (js : JobStore)
    → IsJobStore js
    → lookup id js ≡ some j
    → k.id ≡ j.id
    → IsAssigned k
    → IsJobStore (save (record js { jobs = put id k js.jobs }))
write-IsJobStore id j k js h row same a =
    subst (λ i. IsJobStore (save (record js { jobs = put i k js.jobs })))
      (same ∙ key_of_get job_id id j js.jobs h.keyed row) (put_save-IsJobStore k js a h)

started-IsAssigned :
    (now : ℕ) (node : String) (j : Job)
    → is_claimable node j ≡ true
    → IsAssigned j
    → IsAssigned (started now j)
unfolding started is_claimable
started-IsAssigned now node j can a = record {
  idle = λ e. cc;
  placed = λ e. a.placed (ground arith);
}

completed-IsAssigned :
    (now : ℕ) (good : Bool) (result : Map Json) (message : String) (j : Job)
    → IsAssigned (completed now good result message j)
unfolding completed
completed-IsAssigned now true result message j = record { idle = λ e. cc; placed = λ e. cc }
completed-IsAssigned now false result message j = record { idle = λ e. cc; placed = λ e. cc }

fail_one-IsAssigned :
    (now : ℕ) (node keep message : String) (pending : Bool) (j : Job)
    → IsAssigned j
    → IsAssigned (fail_one now node keep message pending j)
unfolding fail_one
fail_one-IsAssigned now node keep message pending j a =
    elim (Bool-cases (is_in_flight node keep pending j)) [
      | inl e ↦ rw e (record { idle = λ e. cc; placed = λ e. cc })
      | inr e ↦ rw e a
    ]

id-fail_one :
    (now : ℕ) (node keep message : String) (pending : Bool) (j : Job)
    → job_id (fail_one now node keep message pending j) ≡ job_id j
unfolding fail_one
id-fail_one now node keep message pending j = ground arith

assign-IsJobStore :
    (id node : String) (js : JobStore)
    → str_eq node "" ≡ false
    → IsJobStore js
    → IsJobStore (assign id node js).0
unfolding assign to_assign assign_job
assign-IsJobStore id node js named h = elim (Option-cases (get id js.jobs)) [
  | inl e ↦ rw (e, assign) h
  | inr (j, e) ↦ elim (Bool-cases (is_queued j.status)) [
    | inl q ↦
        rw (e, assign)
          (simp q (
            write-IsJobStore id j (record j { status = JobStatus.pending; node_id = node }) js h e
              refl (record { idle = λ e. cc; placed = λ _. named })))
    | inr q ↦ rw (e, assign) (simp q h)
  ]
]

complete-IsJobStore :
    (now : ℕ) (id : String) (good : Bool) (result : Map Json) (message : String) (js : JobStore)
    → IsJobStore js
    → IsJobStore (complete now id good result message js).0
unfolding complete
complete-IsJobStore now id good result message js h = elim (Option-cases (get id js.jobs)) [
  | inl e ↦ rw (e, complete) h
  | inr (j, e) ↦
      rw (e, complete)
        (write-IsJobStore id j (completed now good result message j) js h e refl
          (completed-IsAssigned now good result message j))
]

claim-IsJobStore :
    (now : ℕ) (node : String) (js : JobStore) → IsJobStore js → IsJobStore (claim now node js).0
unfolding started
claim-IsJobStore now node js h = go (claim now node js) (claim-Claims now node js h)
  where
    go : (r : JobStore × Option Job) → Claims now node js r → IsJobStore r.0
    go r (nothing _) = h
    go r (taken c here can old) = write-IsJobStore c.id c (started now c) js h here refl (
        started-IsAssigned now node c can
          (All-of_In IsAssigned c (values js.jobs) h.assigned (In-of_get c.id c js.jobs here)))

fail_in_flight-IsJobStore :
    (now : ℕ) (node keep message : String) (pending : Bool) (js : JobStore)
    → IsJobStore js
    → IsJobStore (fail_in_flight now node keep message pending js).0
fail_in_flight-IsJobStore now node keep message pending js h = record {
  keyed = rw (jobs-fail_in_flight now node keep message pending js) (
      map_values-IsKeyed job_id (fail_one now node keep message pending)
        (id-fail_one now node keep message pending) js.jobs h.keyed);
  assigned = rw (jobs-fail_in_flight now node keep message pending js) (
      All-map_values IsAssigned (fail_one now node keep message pending)
        (fail_one-IsAssigned now node keep message pending) js.jobs h.assigned);
}

pub create-IsJobStore :
    (now : ℕ) (id job_type preferred : String) (r : Requirements) (payload : Map Json)
    (js t : JobStore) (j : Job)
    → create now id job_type preferred r payload js ≡ ok (t, j)
    → IsJobStore js
    → IsJobStore t
unfolding new_job
create-IsJobStore now id job_type preferred r payload js t j made h =
    let (p, is_new, is_t) = create-ok now id job_type preferred r payload js t j made in
    rw is_t (
      put_save-IsJobStore (new_job now id job_type preferred p payload) js
        (record { idle = λ e. eq_refl ""; placed = λ e. cc }) h)

pub Step-IsJobStore : {js t : JobStore} → Step js t → IsJobStore js → IsJobStore t
Step-IsJobStore {js} (creates now id job_type preferred r payload j {t} fresh made) h =
    create-IsJobStore now id job_type preferred r payload js t j made h
Step-IsJobStore {js} (assigns id node named) h = assign-IsJobStore id node js named h
Step-IsJobStore {js} (claims now node) h = claim-IsJobStore now node js h
Step-IsJobStore {js} (completes now id good result message) h =
    complete-IsJobStore now id good result message js h
Step-IsJobStore {js} (fails now node keep message pending) h =
    fail_in_flight-IsJobStore now node keep message pending js h

pub data Reach (js : JobStore) : JobStore → Type 0 where
  here : Reach js js
  next : {t u : JobStore} → Reach js t → Step t u → Reach js u

-- The store keeps its shape over any history: jobs stand under their own id, once each, a queued job
-- has no node, and a pending or running one has.
pub Reach-IsJobStore : {js t : JobStore} → IsJobStore js → Reach js t → IsJobStore t
Reach-IsJobStore h here = h
Reach-IsJobStore h (next r s) = Step-IsJobStore s (Reach-IsJobStore h r)

-- A job with an outcome.
abbrev pub IsFinished : Job → Type 0
IsFinished j = (j.status ≡ JobStatus.succeeded) ⊎ (j.status ≡ JobStatus.failed)

finished_step :
    (s t : JobStatus)
    → Transition s t
    → (s ≡ JobStatus.succeeded) ⊎ (s ≡ JobStatus.failed)
    → (t ≡ JobStatus.succeeded) ⊎ (t ≡ JobStatus.failed)
finished_step s t (stays _) h = h
finished_step s t assigned h = elim h [ inl e ↦ cc | inr e ↦ cc ]
finished_step s t claimed h = elim h [ inl e ↦ cc | inr e ↦ cc ]
finished_step s t (lost _ _) h = inr refl
finished_step s t (succeeds _) h = inl refl
finished_step s t (reported _) h = inr refl

-- Over any history from a store of the right shape a job is never lost and keeps its id, type, age,
-- requirements and payload.
pub Reach-keeps_jobs :
    {js t : JobStore} (id : String) (j : Job)
    → IsJobStore js
    → lookup id js ≡ some j
    → Reach js t
    → (k : Job) × (lookup id t ≡ some k)
      × (k.id ≡ j.id)
      × (k.job_type ≡ j.job_type)
      × (k.created_at ≡ j.created_at)
      × (k.requirements ≡ j.requirements)
      × (k.payload ≡ j.payload)
Reach-keeps_jobs id j h row here = (j, row, refl, refl, refl, refl, refl)
Reach-keeps_jobs id j h row (next {t} {u} r s) =
    let (k, at_k, i, p, q, m, n) = Reach-keeps_jobs id j h row r in
    let (l, at_l, f) = Step-Follows id k s (Reach-IsJobStore h r) at_k in
    (
      l,
      at_l,
      f.same_id ∙ i,
      f.same_type ∙ p,
      f.same_age ∙ q,
      f.same_request ∙ m,
      f.same_payload ∙ n,
    )

-- A job that has an outcome never becomes queued, pending or running again over any history from a
-- store of the right shape, though the outcome itself may be reported again.
pub Reach-IsFinished :
    {js t : JobStore} (id : String) (j : Job)
    → IsJobStore js
    → lookup id js ≡ some j
    → IsFinished j
    → Reach js t
    → (k : Job) × (lookup id t ≡ some k) × IsFinished k
Reach-IsFinished id j h row done here = (j, row, done)
Reach-IsFinished id j h row done (next {t} {u} r s) =
    let (k, at_k, still) = Reach-IsFinished id j h row done r in
    let (l, at_l, f) = Step-Follows id k s (Reach-IsJobStore h r) at_k in
    (l, at_l, finished_step k.status l.status f.moved still)
