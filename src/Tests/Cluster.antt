-- ===== src/Tests/Cluster.antt =====
-- The theorems on the registry, the handlers, the tokens, the denylist and the limiter at the data of
-- Data.
use houdry.Prelude.{◌+◌, ◌≤◌, String, true, false, ◌≡◌, refl, [], ◌∷◌, none, some}
use houdry.Prelude.Results.{ok}
use houdry.Prelude.Maps.{values, get}
use houdry.Nodes.{Node, Store, lookup, upsert, heartbeat, set_status, set_drain, open_store}
use houdry.Nodes.Status.{NodeStatus, Identity}
use houdry.Nodes.Registry.{IsRegistry, Reach, here, next, upserts, drains, Reach-IsRegistry}
use houdry.Nodes.Draining.{draining_kept}
use houdry.Jobs as Queue
use houdry.Jobs.{Job, completed, claim}
use houdry.Enrollment.{Record, consume}
use houdry.Enrollment as Tokens
use houdry.Enrollment.Spending.{Valid, left, attempts, consume-accepted, attempts_bounded}
use houdry.Revocation.{is_revoked, load}
use houdry.Server.Certificates.{Server, job_row, check_node_cert}
use houdry.Server.Agents.{read_node_id, JoinRequest, handle_join, handle_leave, is_working}
use houdry.Server.Work.{ResultRequest, claim_row, hand_out, handle_claim_job, handle_job_result}
use houdry.Server.Parts.{IsServer}
use houdry.Server.Handout.{Admitted, Handed, handle_claim_job_lem}
use houdry.Server.Reports.{result_response, handle_job_result_lem}
use houdry.Server.Rejoining.{rejoin_undoes_suspension}
use houdry.Tests.Work.{queue-IsJobStore}
use houdry.Tests.Data.{
  queue, pending_job, running_job, ready_node, draining_node, registry, server, call_of, machine,
  idle_host, node_with,
}

registry-IsRegistry : IsRegistry registry
unfolding get values
registry-IsRegistry = record { keyed = (refl, refl, (refl, refl, tt)); known = (refl, (refl, tt)) }

pub server-IsServer : IsServer server
server-IsServer = record { rows = registry-IsRegistry; queue = queue-IsJobStore }

draining_found : lookup "n2" registry ≡ some draining_node
unfolding get
draining_found = refl

abbrev empty_registry : Store
empty_registry = open_store 20 true none

-- A node joins an empty registry and is drained.
joined_and_drained :
    Reach empty_registry (set_drain 4 "n1" (upsert 3 ready_node empty_registry).0).0
joined_and_drained = next (next here (upserts 3 ready_node)) (drains 4 "n1")

Reach-IsRegistry_example : IsRegistry (set_drain 4 "n1" (upsert 3 ready_node empty_registry).0).0
Reach-IsRegistry_example = Reach-IsRegistry 20 true none joined_and_drained

draining_kept_example :
    ((m : Node) × (lookup "n2" (heartbeat 110 (node_with "n2" NodeStatus.ready none) registry).0
        ≡ some m)
      × (m.status ≡ NodeStatus.draining))
    × ((m : Node) × (lookup "n2" (set_status 110 "n2" NodeStatus.ready "" registry).0 ≡ some m)
        × (m.status ≡ NodeStatus.draining))
    × ((m : Node) × (lookup "n2" (set_drain 110 "n2" registry).0 ≡ some m)
        × (m.status ≡ NodeStatus.draining)
        × (m.current_job_id ≡ ""))
draining_kept_example =
    draining_kept 110 "n2" registry draining_node draining_found
      (node_with "n2" NodeStatus.ready none) "" refl refl

-- A hash under which the records of these tests are kept.
abbrev plain_hash : String → String
plain_hash token = token

abbrev token_record : Record
token_record = record {
  id = "r";
  token_hash = "t";
  expires = 100;
  uses = 1;
  created_at = 0;
  consumed_at = 0;
  node_id = "";
}

abbrev tokens : Tokens.Store
tokens = record {
  records = [];
  ttl = 10;
  uses = 1;
  disk = some (token_record ∷ []);
  writable = true;
}

accepted_run : (consume plain_hash 50 "t" "n1" tokens).1 ≡ none
unfolding consume
accepted_run = refl

consume-accepted_example :
    (left (consume plain_hash 50 "t" "n1" tokens).0 + 1 ≡ left tokens) × Valid 50 "t" tokens
consume-accepted_example = consume-accepted plain_hash 50 "t" "n1" tokens accepted_run

attempts_bounded_example :
    left (attempts plain_hash tokens ((50, "t", "n1") ∷ (51, "t", "n2") ∷ [])).0
      + (attempts plain_hash tokens ((50, "t", "n1") ∷ (51, "t", "n2") ∷ [])).1
    ≤ left tokens
attempts_bounded_example =
    attempts_bounded plain_hash tokens ((50, "t", "n1") ∷ (51, "t", "n2") ∷ [])

handed_run :
    (handle_claim_job (call_of "n1") (some "n1") server).1 ≡ job_row (Queue.started 110 pending_job)
unfolding handle_claim_job check_node_cert read_node_id get load claim_row hand_out claim is_revoked
    values
handed_run = refl

handle_claim_job_lem_example :
    (id : String) × (some "n1" ≡ some id)
    × Admitted false (call_of "n1").peer server id
    × Handed 110 id
        (Queue.started 110 pending_job)
        server
        (handle_claim_job (call_of "n1") (some "n1") server).0
handle_claim_job_lem_example =
    handle_claim_job_lem (call_of "n1") (some "n1") server (Queue.started 110 pending_job)
      queue-IsJobStore handed_run

abbrev claimed_result : ResultRequest
claimed_result = record { succeeded = true; result = []; error = ""; node_id = "" }

passes : (check_node_cert true false (call_of "n1").peer server).1 ≡ ok "n1"
unfolding check_node_cert get load is_revoked
passes = refl

running_found : Queue.lookup "j3" queue ≡ some running_job
unfolding get
running_found = refl

-- The node n1 reports a result for a job that runs on n2.
handle_job_result_lem_example :
    (Queue.lookup "j3" (handle_job_result (call_of "n1") "j3" (some claimed_result) server).0.jobs
      ≡ some (completed 110 true [] "" running_job))
    × ((handle_job_result (call_of "n1") "j3" (some claimed_result) server).1
        ≡ result_response "n1" claimed_result (completed 110 true [] "" running_job))
handle_job_result_lem_example =
    handle_job_result_lem (call_of "n1") "j3" "n1" claimed_result server running_job
      queue-IsJobStore passes running_found

abbrev suspended_node : Node
suspended_node = record ready_node { identity = Identity.suspended }

abbrev suspending : Server
suspending = record server { store = record registry { nodes = ("n1", suspended_node) ∷ [] } }

abbrev joins_again : JoinRequest
joins_again = record {
  inventory = machine "n1";
  agent_version = "1";
  status = NodeStatus.unset;
  current_job_id = "";
  host_resources = idle_host;
  runtimes = [];
  model_runtimes = [];
  models = none;
}

suspended_found : lookup "n1" suspending.store ≡ some suspended_node
unfolding get
suspended_found = refl

not_listed : is_revoked "s1" suspending.denylist ≡ false
unfolding is_revoked load get
not_listed = refl

idle_there : is_working suspended_node ≡ false
unfolding is_working
idle_there = refl

rejoin_undoes_suspension_example :
    (m : Node) × (lookup "n1"
        (handle_join
          (call_of "n1")
          (some joins_again)
          (handle_leave (call_of "n1") (some "n1") suspending).0).0.store
      ≡ some m)
    × (m.identity ≡ Identity.active)
rejoin_undoes_suspension_example =
    rejoin_undoes_suspension (call_of "n1") (call_of "n1")
      (record { signed = true; common_name = "n1"; serial = "s1" }) "n1" suspended_node joins_again
      suspending refl refl refl refl refl not_listed suspended_found refl idle_there refl
