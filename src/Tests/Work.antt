-- ===== src/Tests/Work.antt =====
-- The theorems on jobs and the scheduler at the data of Data.
use houdry.Prelude.{true, false, ◌≡◌, ◌≢◌, refl, ◌↔◌, ◌⊎◌, inl, [], ◌∷◌, some, All, In}
use houdry.Prelude.Maps.{values, get}
use houdry.Nodes.{Node, node_id}
use houdry.Jobs.{Job, JobStore, lookup, assign, claim, fail_running_for_node, open_jobs, save}
use houdry.Jobs.Status.{JobStatus, is_running, is_pending}
use houdry.Jobs.Store.{IsJobStore}
use houdry.Jobs.Lifecycle.{assigns, claims, Follows, Step-Follows}
use houdry.Jobs.Failing.{fail_running_for_node_lem, Fails}
use houdry.Jobs.Invariant.{Reach, here, next, Reach-IsJobStore, Reach-IsFinished, IsFinished}
use houdry.Jobs.Persistence.{IsNamed, open-save}
use houdry.Scheduler.{select_node, try_schedule_queued, is_candidate}
use houdry.Scheduler.Selection.{IsNamed as HasId, outranks, select_node_lem}
use houdry.Fitting.{fits}
use houdry.Fitting.Soundness.{Suits, fits_iff}
use houdry.Scheduler.Assignment.{placed, try_schedule_queued_lem}
use houdry.Tests.Data.{
  queue, queued_job, running_job, finished_job, ready_node, draining_node, model_request,
}

-- The four jobs stand under their own ids; the queued one has no node, the pending and the running
-- one have.
pub queue-IsJobStore : IsJobStore queue
unfolding get values
queue-IsJobStore = record {
  keyed = (refl, refl, (refl, refl, (refl, refl, (refl, refl, tt))));
  assigned = (
    record { idle = λ _. refl; placed = λ e. cc },
    (
      record { idle = λ e. cc; placed = λ _. refl },
      (
        record { idle = λ e. cc; placed = λ _. refl },
        (record { idle = λ e. cc; placed = λ e. cc }, tt),
      ),
    ),
  );
}

first_found : lookup "j1" queue ≡ some queued_job
unfolding get
first_found = refl

third_found : lookup "j3" queue ≡ some running_job
unfolding get
third_found = refl

last_found : lookup "j4" queue ≡ some finished_job
unfolding get
last_found = refl

-- The queued job is assigned, and its node claims it.
abbrev worked : JobStore
worked = (claim 7 "n1" (assign "j1" "n1" queue).0).0

abbrev history : Reach queue worked
history = next (next here (assigns "j1" "n1" refl)) (claims 7 "n1")

Step-Follows_example :
    (k : Job) × (lookup "j1" (assign "j1" "n1" queue).0 ≡ some k) × Follows queued_job k
Step-Follows_example =
    Step-Follows "j1" queued_job (assigns "j1" "n1" refl) queue-IsJobStore first_found

Reach-IsJobStore_example : IsJobStore worked
Reach-IsJobStore_example = Reach-IsJobStore queue-IsJobStore history

Reach-IsFinished_example : (k : Job) × (lookup "j4" worked ≡ some k) × IsFinished k
Reach-IsFinished_example =
    Reach-IsFinished "j4" finished_job queue-IsJobStore last_found (inl refl) history

fail_running_for_node_lem_example :
    (k : Job) × (lookup "j3" (fail_running_for_node 9 "n2" "lost" queue).0 ≡ some k)
    × (((running_job.node_id ≡ "n2")
          × ((running_job.status ≡ JobStatus.running) ⊎ (running_job.status ≡ JobStatus.pending))
          × Fails 9 "lost" running_job k)
        ⊎ (((running_job.node_id ≢ "n2")
              ⊎ ((is_running running_job.status ≡ false) × (is_pending running_job.status ≡ false)))
            × (k ≡ running_job)))
fail_running_for_node_lem_example =
    fail_running_for_node_lem 9 "n2" "lost" "j3" queue running_job third_found

All-IsNamed : All IsNamed (values queue.jobs)
unfolding values
All-IsNamed = (refl, (refl, (refl, (refl, tt))))

open-save_example : (open_jobs true (save queue).disk).jobs ≡ queue.jobs
open-save_example = open-save queue true queue-IsJobStore All-IsNamed refl

try_schedule_queued_lem_example :
    lookup "j1" (try_schedule_queued (draining_node ∷ ready_node ∷ []) queue)
    ≡ some (placed (select_node (draining_node ∷ ready_node ∷ []) queued_job) queued_job)
try_schedule_queued_lem_example =
    try_schedule_queued_lem (draining_node ∷ ready_node ∷ []) queue "j1" queued_job queue-IsJobStore
      first_found

select_node_lem_example :
    ((select_node (draining_node ∷ ready_node ∷ []) queued_job ≡ "")
      × All (λ n. is_candidate queued_job n ≡ false) (draining_node ∷ ready_node ∷ []))
    ⊎ ((n : Node) × (select_node (draining_node ∷ ready_node ∷ []) queued_job ≡ node_id n)
        × HasId n
        × In n (draining_node ∷ ready_node ∷ [])
        × (is_candidate queued_job n ≡ true)
        × All
            (λ m. is_candidate queued_job m ≡ true → outranks queued_job m n ≡ false)
            (draining_node ∷ ready_node ∷ []))
select_node_lem_example =
    select_node_lem queued_job (draining_node ∷ ready_node ∷ []) (refl, (refl, tt))

fits_iff_example : (fits ready_node model_request ≡ true) ↔ Suits ready_node model_request
fits_iff_example = fits_iff ready_node model_request
