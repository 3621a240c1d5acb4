-- ===== src/Jobs/Lifecycle.antt =====
-- The life of a job under the operations of internal/server/jobs.go.
use houdry.Prelude.{
  ℕ, String, Bool, true, false, ◌≡◌, refl, subst, ◌⊎◌, inl, inr, Option, none, some, arith,
  Bool-cases, if◌then◌else◌, str_eq, eq_iff,
}
use houdry.Prelude.Results.{ok}
use houdry.Prelude.Maps.{Map}
use houdry.Jobs.Status.{JobStatus, is_queued, is_pending}
use houdry.Jobs.Claiming.{Claims, nothing, taken, claim-Claims}
use houdry.Jobs.Store.{
  IsJobStore, lookup-put-save, lookup-assign, lookup-complete, lookup-fail_in_flight, create-ok,
}
use houdry.Jobs.{
  Job, JobStore, Json, lookup, create, new_job, assign, claim, started, is_claimable, complete,
  completed, fail_in_flight, fail_one, is_in_flight,
}
use houdry.Resources.{Requirements}

-- One operation of the store. A new job's id is not in use, and a job is assigned to a named node.
pub data Step (js : JobStore) : JobStore → Type 0 where
  creates :
      (now : ℕ) (id job_type preferred : String) (r : Requirements) (payload : Map Json) (j : Job)
      {t : JobStore}
      → lookup id js ≡ none
      → create now id job_type preferred r payload js ≡ ok (t, j)
      → Step js t
  assigns : (id node : String) → str_eq node "" ≡ false → Step js (assign id node js).0
  claims : (now : ℕ) (node : String) → Step js (claim now node js).0
  completes :
      (now : ℕ) (id : String) (good : Bool) (result : Map Json) (message : String)
      → Step js (complete now id good result message js).0
  fails :
      (now : ℕ) (node keep message : String) (pending : Bool)
      → Step js (fail_in_flight now node keep message pending js).0

-- The changes of status that an operation may make.
pub data Transition : JobStatus → JobStatus → Type 0 where
  stays : (s : JobStatus) → Transition s s
  assigned : Transition JobStatus.queued JobStatus.pending
  claimed : Transition JobStatus.pending JobStatus.running
  lost :
      (s : JobStatus)
      → (s ≡ JobStatus.pending) ⊎ (s ≡ JobStatus.running)
      → Transition s JobStatus.failed
  succeeds : (s : JobStatus) → Transition s JobStatus.succeeded
  reported : (s : JobStatus) → Transition s JobStatus.failed

-- The job after a step: it is still there, moved along one transition, and what was asked for is
-- unchanged.
pub record Follows (j k : Job) : Type 0 where
  pub moved : Transition j.status k.status
  pub same_id : k.id ≡ j.id
  pub same_type : k.job_type ≡ j.job_type
  pub same_age : k.created_at ≡ j.created_at
  pub same_request : k.requirements ≡ j.requirements
  pub same_payload : k.payload ≡ j.payload

Follows-refl : (j : Job) → Follows j j
Follows-refl j = record {
  moved = stays j.status;
  same_id = refl;
  same_type = refl;
  same_age = refl;
  same_request = refl;
  same_payload = refl;
}

moved_to :
    (j : Job) (status : JobStatus) (node : String) (start finish : ℕ) (result : Map Json)
    (error : String)
    → Transition j.status status
    → Follows j (record j {
      status = status;
      node_id = node;
      started_at = start;
      finished_at = finish;
      result = result;
      error = error;
    })
moved_to j status node start finish result error t = record {
  moved = t;
  same_id = refl;
  same_type = refl;
  same_age = refl;
  same_request = refl;
  same_payload = refl;
}

from_queued : (s : JobStatus) → is_queued s ≡ true → Transition s JobStatus.pending
from_queued JobStatus.queued e = assigned
from_queued _ e = cc

from_pending : (s : JobStatus) → is_pending s ≡ true → Transition s JobStatus.running
from_pending JobStatus.pending e = claimed
from_pending _ e = cc

Follows-assigned :
    (j : Job) (node : String)
    → Follows j
        (if is_queued j.status then record j { status = JobStatus.pending; node_id = node } else j)
Follows-assigned j node = elim (Bool-cases (is_queued j.status)) [
  | inl e ↦ rw e (moved_to j _ _ _ _ _ _ (from_queued j.status e))
  | inr e ↦ rw e (Follows-refl j)
]

Follows-started :
    (now : ℕ) (node : String) (j : Job) → is_claimable node j ≡ true → Follows j (started now j)
unfolding started is_claimable
Follows-started now node j can = moved_to j _ _ _ _ _ _ (from_pending j.status (ground arith))

Follows-completed :
    (now : ℕ) (good : Bool) (result : Map Json) (message : String) (j : Job)
    → Follows j (completed now good result message j)
unfolding completed
Follows-completed now true result message j = moved_to j _ _ _ _ _ _ (succeeds j.status)
Follows-completed now false result message j = moved_to j _ _ _ _ _ _ (reported j.status)

flying :
    (node keep : String) (pending : Bool) (j : Job)
    → is_in_flight node keep pending j ≡ true
    → (j.status ≡ JobStatus.pending) ⊎ (j.status ≡ JobStatus.running)
unfolding is_in_flight
flying node keep pending j e = ground arith

Follows-fail_one :
    (now : ℕ) (node keep message : String) (pending : Bool) (j : Job)
    → Follows j (fail_one now node keep message pending j)
unfolding fail_one
Follows-fail_one now node keep message pending j =
    elim (Bool-cases (is_in_flight node keep pending j)) [
      | inl e ↦ rw e (moved_to j _ _ _ _ _ _ (lost j.status (flying node keep pending j e)))
      | inr e ↦ rw e (Follows-refl j)
    ]

abbrev After : String → JobStore → Job → Type 0
After id js j = (k : Job) × (lookup id js ≡ some k) × Follows j k

module _ (js : JobStore) (id : String) (j : Job) (row : lookup id js ≡ some j) where
  After-create :
      (now : ℕ) (new job_type preferred : String) (r : Requirements) (payload : Map Json) (n : Job)
      (t : JobStore)
      → lookup new js ≡ none
      → create now new job_type preferred r payload js ≡ ok (t, n)
      → After id t j
  After-create now new job_type preferred r payload n t fresh made =
      let (p, is_new, is_t) = create-ok now new job_type preferred r payload js t n made in
      rw is_t (
        j,
        ground (
          arith,
          lookup-put-save new id (new_job now new job_type preferred p payload) js,
          eq_iff new id,
        ),
        Follows-refl j,
      )

  After-assign : (key node : String) → After id (assign key node js).0 j
  After-assign key node = elim (Bool-cases (str_eq key id)) [
    | inl e ↦ (_, ground (arith, lookup-assign key node id js), Follows-assigned j node)
    | inr e ↦ (j, ground (arith, lookup-assign key node id js), Follows-refl j)
  ]

  After-complete :
      (now : ℕ) (key : String) (good : Bool) (result : Map Json) (message : String)
      → After id (complete now key good result message js).0 j
  After-complete now key good result message = elim (Bool-cases (str_eq key id)) [
    | inl e ↦ (
      completed now good result message j,
      ground (arith, lookup-complete now key good result message id js),
      Follows-completed now good result message j,
    )
    | inr e ↦ (j, ground (arith, lookup-complete now key good result message id js), Follows-refl j)
  ]

  After-fail :
      (now : ℕ) (node keep message : String) (pending : Bool)
      → After id (fail_in_flight now node keep message pending js).0 j
  After-fail now node keep message pending = (
    fail_one now node keep message pending j,
    ground (arith, lookup-fail_in_flight now node keep message pending id js),
    Follows-fail_one now node keep message pending j,
  )

  After-claim : (now : ℕ) (node : String) → IsJobStore js → After id (claim now node js).0 j
  After-claim now node h = go (claim now node js) (claim-Claims now node js h)
    where
      go : (r : JobStore × Option Job) → Claims now node js r → After id r.0 j
      go r (nothing _) = (j, row, Follows-refl j)
      go r (taken c here can old) = elim (Bool-cases (str_eq c.id id)) [
        | inl e ↦
            let same : c ≡ j = ground (arith, eq_iff c.id id) in
            (
              started now c,
              ground (arith, lookup-put-save c.id id (started now c) js),
              subst (λ k. Follows k (started now c)) same (Follows-started now node c can),
            )
        | inr e ↦ (j, ground (arith, lookup-put-save c.id id (started now c) js), Follows-refl j)
      ]

-- From a store of the right shape, a step loses no job and changes none but along a transition: a
-- queued job becomes pending, a pending one running, one in flight fails, and any may be reported
-- done. Its id, type, age, requirements and payload stay.
pub Step-Follows :
    {js t : JobStore} (id : String) (j : Job)
    → Step js t
    → IsJobStore js
    → lookup id js ≡ some j
    → (k : Job) × (lookup id t ≡ some k) × Follows j k
Step-Follows {js} id j (creates now new job_type preferred r payload n {t} fresh made) h row =
    After-create js id j row now new job_type preferred r payload n t fresh made
Step-Follows {js} id j (assigns key node named) h row = After-assign js id j row key node
Step-Follows {js} id j (claims now node) h row = After-claim js id j row now node h
Step-Follows {js} id j (completes now key good result message) h row =
    After-complete js id j row now key good result message
Step-Follows {js} id j (fails now node keep message pending) h row =
    After-fail js id j row now node keep message pending
