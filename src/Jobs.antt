-- ===== src/Jobs.antt =====
-- internal/server/jobs.go: the job store. Times are numbers of nanoseconds; each operation takes the
-- time at which it runs, and `create` the id that newJobID draws. A JSON value is a text or
-- something else, kept as written. `disk` is the list that jobs.json decodes to.
pub mod Status
pub mod Store
pub mod Claiming
pub mod Failing
pub mod Lifecycle
pub mod Invariant
pub mod Persistence
pub mod Listing
pub mod Board
pub mod Waiting
use Status.{JobStatus, is_queued, is_pending, is_running, same_status}
use houdry.Prelude.{
  ℕ, suc, String, Bool, true, false, not, ◌&&◌, ◌||◌, List, [], ◌∷◌, Option, none, some, str_eq,
  ltb, if◌then◌else◌, filter, length, ◌==◌,
}
use houdry.Prelude.Results.{Result, ok, err, ◌>>=◌}
use houdry.Prelude.Maps.{Map, get, put, values, map_values}
use houdry.Resources.{Requirements, no_requirements, normalize_model_fields, model_identity}

pub data Json : Type 0 where
  text : String → Json
  other : String → Json

pub record Job : Type 0 where
  pub id : String
  pub job_type : String
  pub status : JobStatus
  pub node_id : String
  pub preferred_node_id : String
  pub requirements : Requirements
  pub payload : Map Json
  pub created_at : ℕ
  pub started_at : ℕ
  pub finished_at : ℕ
  pub result : Map Json
  pub error : String

pub record JobStore : Type 0 where
  pub jobs : Map Job
  pub disk : Option (List Job)
  pub writable : Bool

pub data CreateError : Type 0 where
  unsupported_type model_required prompt_required : CreateError

-- saveLocked
unfoldable pub save : JobStore → JobStore
save js = if js.writable then record js { disk = some (values js.jobs) } else js

-- DefaultRequirements
unfoldable pub default_requirements : String → Requirements
default_requirements job_type =
    if str_eq job_type "gpu.smoke" || str_eq job_type "inference"
    then record no_requirements { gpu_required = true }
    else no_requirements

-- prompt, _ := payload["prompt"].(string)
text_of : Option Json → String
text_of none = ""
text_of (some (text s)) = s
text_of (some (other s)) = ""

require_gpu : Requirements → Requirements
require_gpu r =
    if not r.gpu_required && r.min_vram_bytes == 0 then record r { gpu_required = true } else r

prepare_inference : Requirements → Map Json → Result CreateError Requirements
unfolding require_gpu text_of
prepare_inference r payload =
    if str_eq (model_identity r).name ""
    then err model_required
    else if str_eq (text_of (get "prompt" payload)) ""
    then err prompt_required
    else ok (require_gpu r)

-- The checks of Create, and the requirements that it stores before the defaults.
prepare : String → Requirements → Map Json → Result CreateError Requirements
unfolding prepare_inference
prepare job_type r payload =
    if str_eq job_type "inference"
    then prepare_inference (normalize_model_fields r) payload
    else if str_eq job_type "gpu.smoke"
    then ok (normalize_model_fields r)
    else err unsupported_type

or_default : String → Requirements → Requirements
unfolding default_requirements
or_default job_type r =
    if not r.gpu_required && r.min_vram_bytes == 0 && str_eq (model_identity r).name ""
    then default_requirements job_type
    else r

unfoldable pub new_job : ℕ → String → String → String → Requirements → Map Json → Job
new_job now id job_type preferred r payload = record {
  id = id;
  job_type = job_type;
  status = JobStatus.queued;
  node_id = "";
  preferred_node_id = preferred;
  requirements = r;
  payload = payload;
  created_at = now;
  started_at = 0;
  finished_at = 0;
  result = [];
  error = "";
}

add : Job → JobStore → JobStore × Job
unfolding save
add j js = (save (record js { jobs = put j.id j js.jobs }), j)

-- Create
unfoldable pub create :
    ℕ
    → String
    → String
    → String
    → Requirements
    → Map Json
    → JobStore
    → Result CreateError (JobStore × Job)
unfolding prepare or_default new_job add
create now id job_type preferred r payload js = do
  prepared ← prepare job_type r payload
  ok (add (new_job now id job_type preferred (or_default job_type prepared) payload) js)

-- Assign on a job that is there.
assign_job : String → Job → Option Job
assign_job node j =
    if is_queued j.status
    then some (record j { status = JobStatus.pending; node_id = node })
    else none

to_assign : String → Option Job → Option Job
unfolding assign_job
to_assign node none = none
to_assign node (some j) = assign_job node j

-- Assign
unfoldable pub assign : String → String → JobStore → JobStore × Bool
unfolding to_assign save
assign id node js = elim (to_assign node (get id js.jobs)) [
  | none ↦ (js, false)
  | some j ↦ (save (record js { jobs = put id j js.jobs }), true)
]

-- A job that the node may claim.
unfoldable pub is_claimable : String → Job → Bool
is_claimable node j = is_pending j.status && str_eq j.node_id node

older : Job → Option Job → Job
older j none = j
older j (some chosen) = if ltb j.created_at chosen.created_at then j else chosen

-- The loop of Claim.
unfoldable pub oldest : String → Option Job → List Job → Option Job
unfolding is_claimable older
oldest node chosen [] = chosen
oldest node chosen (j ∷ js) =
    oldest node (if is_claimable node j then some (older j chosen) else chosen) js

unfoldable pub started : ℕ → Job → Job
started now j = record j { status = JobStatus.running; started_at = now }

-- Claim
unfoldable pub claim : ℕ → String → JobStore → JobStore × Option Job
unfolding oldest started save
claim now node js = elim (oldest node none (values js.jobs)) [
  | none ↦ (js, none)
  | some j ↦ (save (record js { jobs = put j.id (started now j) js.jobs }), some (started now j))
]

unfoldable pub completed : ℕ → Bool → Map Json → String → Job → Job
completed now good result message j = record j {
  status = if good then JobStatus.succeeded else JobStatus.failed;
  error = if good then "" else message;
  result = result;
  finished_at = now;
}

-- Complete
unfoldable pub complete : ℕ → String → Bool → Map Json → String → JobStore → JobStore × Option Job
unfolding completed save
complete now id good result message js = elim (get id js.jobs) [
  | none ↦ (js, none)
  | some j ↦ (
    save (record js { jobs = put id (completed now good result message j) js.jobs }),
    some (completed now good result message j),
  )
]

-- Get
abbrev pub lookup : String → JobStore → Option Job
lookup id js = get id js.jobs

-- sort.Slice by CreatedAt. Jobs of one instant keep the order of the loop here.
insert_job : Job → List Job → List Job
insert_job j [] = j ∷ []
insert_job j (k ∷ ks) = if ltb k.created_at j.created_at then k ∷ insert_job j ks else j ∷ k ∷ ks

unfoldable pub by_age : List Job → List Job
unfolding insert_job
by_age [] = []
by_age (j ∷ js) = insert_job j (by_age js)

-- List
unfoldable pub list : JobStore → List Job
unfolding by_age
list js = by_age (values js.jobs)

-- ListByStatus
unfoldable pub list_by_status : JobStatus → JobStore → List Job
unfolding by_age
list_by_status status js = by_age (filter (λ j. same_status j.status status) (values js.jobs))

-- CountByStatus
unfoldable pub count_by_status : JobStatus → JobStore → ℕ
count_by_status status js = length (filter (λ j. same_status j.status status) (values js.jobs))

-- The jobs that failInFlight fails.
unfoldable pub is_in_flight : String → String → Bool → Job → Bool
is_in_flight node keep include_pending j =
    str_eq j.node_id node
    && (is_running j.status || (is_pending j.status && include_pending))
    && not (not (str_eq keep "") && str_eq j.id keep)

unfoldable pub fail_one : ℕ → String → String → String → Bool → Job → Job
unfolding is_in_flight
fail_one now node keep message include_pending j =
    if is_in_flight node keep include_pending j
    then record j { status = JobStatus.failed; error = message; finished_at = now }
    else j

-- failInFlight, with the number of jobs that it failed.
unfoldable pub fail_in_flight : ℕ → String → String → String → Bool → JobStore → JobStore × ℕ
unfolding fail_one save
fail_in_flight now node keep message include_pending js =
    let n = length (filter (is_in_flight node keep include_pending) (values js.jobs)) in
    let failed = record js {
      jobs = map_values (fail_one now node keep message include_pending) js.jobs;
    } in
    (if n == 0 then failed else save failed, n)

-- FailRunningForNode
unfoldable pub fail_running_for_node : ℕ → String → String → JobStore → JobStore × ℕ
unfolding fail_in_flight
fail_running_for_node now node message js = fail_in_flight now node "" message true js

-- FailRunningExcept
unfoldable pub fail_running_except : ℕ → String → String → String → JobStore → JobStore × ℕ
unfolding fail_in_flight
fail_running_except now node keep message js = fail_in_flight now node keep message false js

loaded_job : Job → Job
loaded_job j =
    if is_pending j.status && str_eq j.node_id "" then record j { status = JobStatus.queued } else j

load_jobs : List Job → Map Job → Map Job
unfolding loaded_job
load_jobs [] m = m
load_jobs (j ∷ js) m = load_jobs js (if str_eq j.id "" then m else put j.id (loaded_job j) m)

-- NewJobStore on what the file decodes to; without a file the store is empty.
unfoldable pub open_jobs : Bool → Option (List Job) → JobStore
unfolding load_jobs
open_jobs writable disk = record {
  jobs = elim disk [ none ↦ [] | some rows ↦ load_jobs rows [] ];
  disk = disk;
  writable = writable;
}
