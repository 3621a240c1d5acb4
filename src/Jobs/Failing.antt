-- ===== src/Jobs/Failing.antt =====
-- FailRunningForNode and FailRunningExcept of internal/server/jobs.go.
use houdry.Prelude.{
  ℕ, String, Bool, true, false, ◌≡◌, ◌≢◌, ◌∙◌, refl, ◌⊎◌, [], ◌∷◌, some, arith, eq_iff, length,
  filter,
}
use houdry.Prelude.Maps.{Map, values, map_values}
use houdry.Jobs.Status.{JobStatus, is_pending, is_running}
use houdry.Jobs.{
  Job, JobStore, lookup, is_in_flight, fail_one, fail_in_flight, fail_running_for_node,
  fail_running_except,
}
use houdry.Jobs.Store.{lookup-fail_in_flight, jobs-fail_in_flight}

-- A row after the call.
abbrev pub Fails : ℕ → String → Job → Job → Type 0
Fails now message j k =
    (k ≡ record j { status = JobStatus.failed; error = message; finished_at = now })

-- When a node leaves, its pending and running jobs fail with the message, and every other job, of
-- another node or not in flight, is left as it was.
pub fail_running_for_node_lem :
    (now : ℕ) (node message id : String) (js : JobStore) (j : Job)
    → lookup id js ≡ some j
    → (k : Job) × (lookup id (fail_running_for_node now node message js).0 ≡ some k)
      × (((j.node_id ≡ node)
            × ((j.status ≡ JobStatus.running) ⊎ (j.status ≡ JobStatus.pending))
            × Fails now message j k)
          ⊎ (((j.node_id ≢ node) ⊎ ((is_running j.status ≡ false) × (is_pending j.status ≡ false)))
              × (k ≡ j)))
unfolding fail_running_for_node fail_one is_in_flight
fail_running_for_node_lem now node message id js j e = (
  fail_one now node "" message true j,
  ground (arith, lookup-fail_in_flight now node "" message true id js),
  ground (arith, eq_iff j.node_id node, eq_iff j.id "", eq_iff "" ""),
)

-- A heartbeat that names the job it runs fails the node's other running jobs, keeps that one, and
-- leaves pending jobs and the jobs of other nodes as they were.
pub fail_running_except_lem :
    (now : ℕ) (node keep message id : String) (js : JobStore) (j : Job)
    → lookup id js ≡ some j
    → (k : Job) × (lookup id (fail_running_except now node keep message js).0 ≡ some k)
      × (((j.node_id ≡ node)
            × (j.status ≡ JobStatus.running)
            × ((keep ≡ "") ⊎ (j.id ≢ keep))
            × Fails now message j k)
          ⊎ (((j.node_id ≢ node) ⊎ ((is_running j.status ≡ false) ⊎ ((keep ≢ "") × (j.id ≡ keep))))
              × (k ≡ j)))
unfolding fail_running_except fail_one is_in_flight
fail_running_except_lem now node keep message id js j e = (
  fail_one now node keep message false j,
  ground (arith, lookup-fail_in_flight now node keep message false id js),
  ground (arith, eq_iff j.node_id node, eq_iff j.id keep, eq_iff keep ""),
)

none_left :
    (now : ℕ) (node keep message : String) (pending : Bool) (m : Map Job)
    → length (
        filter
          (is_in_flight node keep pending)
          (values (map_values (fail_one now node keep message pending) m)))
      ≡ 0
unfolding values map_values is_in_flight fail_one
none_left now node keep message pending [] = refl
none_left now node keep message pending ((id, j) ∷ m) =
    ground (arith, none_left now node keep message pending m)

count_after :
    (now : ℕ) (node keep message : String) (pending : Bool) (js : JobStore)
    → (fail_in_flight now node keep message pending js).1
      ≡ length (filter (is_in_flight node keep pending) (values js.jobs))
unfolding fail_in_flight
count_after now node keep message pending js = refl

-- A second call at once fails nothing.
pub fail_in_flight_again :
    (now later : ℕ) (node keep message other : String) (pending : Bool) (js : JobStore)
    → (fail_in_flight later node keep other pending
        (fail_in_flight now node keep message pending js).0).1
      ≡ 0
fail_in_flight_again now later node keep message other pending js =
    count_after later node keep other pending (fail_in_flight now node keep message pending js).0
    ∙ (rw (jobs-fail_in_flight now node keep message pending js)
        (none_left now node keep message pending js.jobs))
