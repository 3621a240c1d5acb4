-- ===== src/Jobs/Store.antt =====
-- The shape of the job store of internal/server/jobs.go, and lookups after its operations.
use houdry.Prelude.{
  ℕ, String, Bool, true, false, ◌≡◌, refl, inl, inr, none, some, arith, ◌||◌, Option-cases,
  Bool-cases, if◌then◌else◌, str_eq, eq_iff, All, ◌==◌, length, filter,
}
use houdry.Prelude.Results.{Result, ok, err, ◌>>=◌}
use houdry.Prelude.Maps.{Map, get, put, values, map_values, get-put, get-map_values}
use houdry.Prelude.Keyed.{IsKeyed, put-IsKeyed, All-put}
use houdry.Resources.{Requirements, normalize_model_fields, model_identity}
use houdry.Jobs.Status.{JobStatus, is_queued, is_pending, is_running}
use houdry.Jobs.{
  prepare_inference, require_gpu, text_of, Job, JobStore, Json, CreateError, save, lookup, create,
  prepare, or_default, new_job, add, assign, to_assign, assign_job, complete, completed,
  fail_in_flight, fail_one, is_in_flight,
}

abbrev pub job_id : Job → String
job_id j = j.id

-- A queued job has no node; a pending or running one has.
pub record IsAssigned (j : Job) : Type 0 where
  pub idle : is_queued j.status ≡ true → str_eq j.node_id "" ≡ true
  pub placed : (is_pending j.status || is_running j.status) ≡ true → str_eq j.node_id "" ≡ false

-- Jobs stand under their own id, once each, with the node that their status asks for.
pub record IsJobStore (js : JobStore) : Type 0 where
  pub keyed : IsKeyed job_id js.jobs
  pub assigned : All IsAssigned (values js.jobs)

pub jobs-save : (js : JobStore) → (save js).jobs ≡ js.jobs
unfolding save
jobs-save js = ground arith

pub save-IsJobStore : (js : JobStore) → IsJobStore js → IsJobStore (save js)
save-IsJobStore js h = record {
  keyed = rw (jobs-save js) h.keyed;
  assigned = rw (jobs-save js) h.assigned;
}

-- Writing a job under its own id and saving.
pub put_save-IsJobStore :
    (j : Job) (js : JobStore)
    → IsAssigned j
    → IsJobStore js
    → IsJobStore (save (record js { jobs = put j.id j js.jobs }))
put_save-IsJobStore j js a h =
    save-IsJobStore (record js { jobs = put j.id j js.jobs })
      (record {
        keyed = put-IsKeyed job_id j js.jobs h.keyed;
        assigned = All-put IsAssigned j.id j js.jobs a h.assigned;
      })

pub lookup-put-save :
    (id k : String) (j : Job) (js : JobStore)
    → lookup k (save (record js { jobs = put id j js.jobs }))
      ≡ (if str_eq id k then some j else lookup k js)
lookup-put-save id k j js =
    rw (jobs-save (record js { jobs = put id j js.jobs })) (get-put id k j js.jobs)

-- What Assign does under any id.
pub lookup-assign :
    (id node k : String) (js : JobStore)
    → lookup k (assign id node js).0 ≡ (
        if str_eq id k
        then elim (lookup k js) [
          | none ↦ none
          | some j ↦ some (
              if is_queued j.status
              then record j { status = JobStatus.pending; node_id = node }
              else j)
        ]
        else lookup k js)
unfolding assign to_assign assign_job
lookup-assign id node k js = elim (Option-cases (get id js.jobs)) [
  | inl e ↦ rw (e, assign) (ground (arith, eq_iff id k))
  | inr (j, e) ↦ elim (Bool-cases (is_queued j.status)) [
    | inl q ↦
        let assigned : Job = record j { status = JobStatus.pending; node_id = node } in
        rw (e, assign) (ground (arith, lookup-put-save id k assigned js, eq_iff id k))
    | inr q ↦ rw (e, assign) (ground (arith, eq_iff id k))
  ]
]

-- What Complete does under any id.
pub lookup-complete :
    (now : ℕ) (id : String) (good : Bool) (result : Map Json) (message k : String) (js : JobStore)
    → lookup k (complete now id good result message js).0 ≡ (
        if str_eq id k
        then elim (lookup k js) [
          | none ↦ none
          | some j ↦ some (completed now good result message j)
        ]
        else lookup k js)
unfolding complete
lookup-complete now id good result message k js = elim (Option-cases (get id js.jobs)) [
  | inl e ↦ rw (e, complete) (ground (arith, eq_iff id k))
  | inr (j, e) ↦
      rw (e, complete, lookup-put-save id k (completed now good result message j) js)
        (ground (arith, eq_iff id k))
]

pub jobs-fail_in_flight :
    (now : ℕ) (node keep message : String) (pending : Bool) (js : JobStore)
    → (fail_in_flight now node keep message pending js).0.jobs
      ≡ map_values (fail_one now node keep message pending) js.jobs
unfolding fail_in_flight
jobs-fail_in_flight now node keep message pending js =
    elim (Bool-cases (length (filter (is_in_flight node keep pending) (values js.jobs)) == 0)) [
      | inl e ↦ rw e refl
      | inr e ↦ rw e (
          jobs-save
            (record js { jobs = map_values (fail_one now node keep message pending) js.jobs }))
    ]

-- What failing the jobs in flight does under any id.
pub lookup-fail_in_flight :
    (now : ℕ) (node keep message : String) (pending : Bool) (k : String) (js : JobStore)
    → lookup k (fail_in_flight now node keep message pending js).0 ≡ elim (lookup k js) [
      | none ↦ none
      | some j ↦ some (fail_one now node keep message pending j)
    ]
lookup-fail_in_flight now node keep message pending k js =
    rw (jobs-fail_in_flight now node keep message pending js)
      (get-map_values (fail_one now node keep message pending) k js.jobs)

-- What Create answers when it accepts: a queued job under the drawn id, added to the store.
pub create-ok :
    (now : ℕ) (id job_type preferred : String) (r : Requirements) (payload : Map Json)
    (js t : JobStore) (j : Job)
    → create now id job_type preferred r payload js ≡ ok (t, j)
    → (p : Requirements) × (j ≡ new_job now id job_type preferred p payload)
      × (t
          ≡ save
              (record js { jobs = put id (new_job now id job_type preferred p payload) js.jobs }))
unfolding create add
create-ok now id job_type preferred r payload js t j h = go (prepare job_type r payload) h
  where
    go :
        (m : Result CreateError Requirements)
        → (m >>= λ p.
            ok (add (new_job now id job_type preferred (or_default job_type p) payload) js))
          ≡ ok (t, j)
        → (p : Requirements) × (j ≡ new_job now id job_type preferred p payload)
          × (t
              ≡ save (record js {
                jobs = put id (new_job now id job_type preferred p payload) js.jobs;
              }))
    go (ok p) h = (or_default job_type p, cc, cc)
    go (err e) h = cc

-- The requirements of an inference job that asks for a device are the normalised ones.
pub create-inference :
    (now : ℕ) (id preferred : String) (r : Requirements) (payload : Map Json) (js t : JobStore)
    (j : Job)
    → create now id "inference" preferred r payload js ≡ ok (t, j)
    → (normalize_model_fields r).gpu_required ≡ true
    → j.requirements ≡ normalize_model_fields r
unfolding create add new_job prepare prepare_inference or_default require_gpu
create-inference now id preferred r payload js t j h gpu =
    elim (Bool-cases (str_eq (model_identity (normalize_model_fields r)).name "")) [
      | inl e ↦ absurd (ground arith)
      | inr e ↦ elim (Bool-cases (str_eq (text_of (get "prompt" payload)) "")) [
        | inl f ↦ absurd (ground arith)
        | inr f ↦ ground arith
      ]
    ]
