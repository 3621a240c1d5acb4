-- ===== src/Server/Agents.antt =====
-- The handlers of internal/server/server.go that an agent calls about its node, with enrichNode and
-- defaultHostFromInventory of internal/server/cluster.go.
use houdry.Prelude.{
  String, Bool, true, false, not, ◌&&◌, ◌||◌, ℕ, List, [], Option, none, some, str_eq, ◌==◌,
  is_empty, if◌then◌else◌,
}
use houdry.Prelude.Results.{Result, ok, err}
use houdry.Gpu.{Inventory, HostResources}
use houdry.Model.{Model}
use houdry.Resources.{build_profile}
use houdry.Nodes.{
  Node, Store, node_id, lookup, list, upsert, heartbeat, set_status, set_drain, set_identity,
  remove,
}
use houdry.Nodes.Status.{
  NodeStatus, Identity, is_unset, is_busy, is_ready, is_draining, is_certified,
}
use houdry.Jobs.{fail_running_except, fail_running_for_node}
use houdry.Scheduler.{try_schedule_queued}
use houdry.Server.Certificates.{
  Server, Response, denied, node_row, left, Certificate, guarded, check_node_cert,
}

pub record JoinRequest : Type 0 where
  pub inventory : Inventory
  pub agent_version : String
  pub status : NodeStatus
  pub current_job_id : String
  pub host_resources : HostResources
  pub runtimes : List String
  pub model_runtimes : List String
  pub models : Option (List Model)

-- What a call carries besides its body: the time, the client's address, the certificate, and what
-- host.Collect would answer on the server's machine.
pub record Call : Type 0 where
  pub now : ℕ
  pub address : String
  pub peer : Option Certificate
  pub collected : HostResources

-- readJoinRequest
unfoldable pub read_join_request : ℕ → Option JoinRequest → Result Response JoinRequest
read_join_request now none = err (denied 400 "invalid json")
read_join_request now (some req) =
    if str_eq req.inventory.node_id ""
    then err (denied 400 "node_id is required")
    else ok (record req {
      inventory = record req.inventory {
        detected_at = if req.inventory.detected_at == 0 then now else req.inventory.detected_at;
      };
    })

-- readNodeID
unfoldable pub read_node_id : Option String → Result Response String
read_node_id none = err (denied 400 "node_id is required")
read_node_id (some id) = if str_eq id "" then err (denied 400 "node_id is required") else ok id

default_host : HostResources → Inventory → HostResources
default_host collected inv =
    if str_eq collected.arch "" then record collected { arch = inv.host.arch } else collected

host_of : Call → JoinRequest → HostResources
unfolding default_host
host_of call req =
    if req.host_resources.cpu_cores == 0
    then default_host call.collected req.inventory
    else req.host_resources

enrich_node : HostResources → List String → Node → Node
enrich_node host runtimes n = record n {
  resources =
      build_profile n.inventory host
        (if not (str_eq n.current_job_id "") || is_busy n.status then 1 else 0);
  runtimes = if is_empty runtimes then n.runtimes else runtimes;
}

-- Node{}
abbrev pub zero_node : Node
zero_node = record {
  inventory = record {
    node_id = "";
    detected_at = 0;
    host = record { hostname = ""; os = ""; arch = ""; kernel = "" };
    gpus = [];
    sources = [];
    warnings = [];
  };
  status = NodeStatus.unset;
  agent_version = "";
  current_job_id = "";
  resources = record {
    static = record { cpu_cores = 0; memory_total_bytes = 0; arch = ""; gpus = [] };
    dynamic = record { memory_used_bytes = 0; active_jobs = 0; gpus = [] };
  };
  runtimes = [];
  model_runtimes = [];
  models = none;
  joined_at = 0;
  last_seen = 0;
  remote_ip = "";
  identity = Identity.absent;
  cert_fingerprint = "";
  cert_serial = "";
  cert_not_after = 0;
}

-- The node of a request, before enrichNode.
requested : Call → JoinRequest → String → Identity → Node
requested call req job identity = record zero_node {
  inventory = req.inventory;
  status = req.status;
  agent_version = req.agent_version;
  current_job_id = job;
  runtimes = req.runtimes;
  model_runtimes = req.model_runtimes;
  models = req.models;
  remote_ip = call.address;
  identity = identity;
}

-- n, _ := ..., a row or Node{}.
unfoldable pub answered : Store × Option Node → Store × Node
answered (s, none) = (s, zero_node)
answered (s, some n) = (s, n)

first_status : Node → Node
first_status n =
    if is_unset n.status
    then record n {
      status = if str_eq n.agent_version "" then NodeStatus.joined else NodeStatus.ready;
    }
    else n

-- The node that handleJoin stores.
unfoldable pub joining : Call → JoinRequest → Node
unfolding requested enrich_node first_status host_of
joining call req =
    first_status
      (enrich_node (host_of call req) req.runtimes (requested call req "" Identity.active))

-- The node that handleHeartbeat passes to the store.
unfoldable pub beating : Call → JoinRequest → Node
unfolding requested enrich_node host_of
beating call req =
    enrich_node (host_of call req) req.runtimes
      (requested call req req.current_job_id Identity.absent)

-- The end of a handler that lets the scheduler run.
unfoldable pub scheduled : Server → Server
scheduled s = record s { jobs = try_schedule_queued (list s.store) s.jobs }

unfoldable pub admit : Call → JoinRequest → Server → Server × Response
unfolding joining scheduled
admit call req s =
    let (store, row) = upsert call.now (joining call req) s.store in
    let jobs =
      (fail_running_except call.now (node_id row) req.current_job_id "worker restarted" s.jobs).0 in
    (scheduled (record s { store = store; jobs = jobs }), node_row row)

-- req.NodeID = nodeID
unfoldable pub named : String → JoinRequest → JoinRequest
named id req = record req { inventory = record req.inventory { node_id = id } }

-- handleJoin
unfoldable pub handle_join : Call → Option JoinRequest → Server → Server × Response
unfolding admit read_join_request named
handle_join call body s = guarded (check_node_cert false true call.peer s) λ id s.
    elim (read_join_request call.now body) [
      | err r ↦ (s, r)
      | ok req ↦
          if not (str_eq req.inventory.node_id "") && not (str_eq req.inventory.node_id id)
          then (s, denied 403 "node_id does not match certificate")
          else admit call (named id req) s
    ]

-- A certified node becomes active at its first heartbeat.
unfoldable pub activate : Node → Store → Store × Node
activate out s =
    if is_certified out.identity
    then answered (set_identity (node_id out) Identity.active s)
    else (s, out)

unfoldable pub settle : Call → JoinRequest → Node → Store → Server → Server × Response
unfolding activate answered scheduled
settle call req found store s =
    let (store, out) = activate found store in
    let jobs =
      (fail_running_except call.now (node_id out) req.current_job_id
        "worker is no longer running this job" s.jobs).0 in
    let after = record s { store = store; jobs = jobs } in
    (if is_ready out.status then scheduled after else after, node_row out)

unfoldable pub take_beat : Call → JoinRequest → Server → Server × Response
unfolding beating settle
take_beat call req s =
    let (store, found) = heartbeat call.now (beating call req) s.store in
    elim found [
      | none ↦
          (record s { store = store }, denied 404 "node not registered; call /v1/nodes/join first")
      | some out ↦ settle call req out store s
    ]

-- handleHeartbeat
unfoldable pub handle_heartbeat : Call → Option JoinRequest → Server → Server × Response
unfolding take_beat read_join_request named
handle_heartbeat call body s = guarded (check_node_cert true false call.peer s) λ id s.
    elim (read_join_request call.now body) [
      | err r ↦ (s, r)
      | ok req ↦
          if not (str_eq req.inventory.node_id "") && not (str_eq req.inventory.node_id id)
          then (s, denied 403 "node_id does not match certificate")
          else take_beat call (named id req) s
    ]

unfoldable pub drain_row : ℕ → String → Server → Server × Response
drain_row now id s =
    let (store, found) = set_drain now id s.store in
    elim found [
      | none ↦ (record s { store = store }, denied 404 "node not registered")
      | some n ↦ (record s { store = store }, node_row n)
    ]

-- handleDrain
unfoldable pub handle_drain : Call → Option String → Server → Server × Response
unfolding drain_row read_node_id
handle_drain call body s = guarded (check_node_cert true false call.peer s) λ certified s.
    elim (read_node_id body) [
      | err r ↦ (s, r)
      | ok id ↦
          if not (str_eq id certified)
          then (s, denied 403 "node_id does not match certificate")
          else drain_row call.now id s
    ]

-- A node with work does not leave.
unfoldable pub is_working : Node → Bool
is_working n = is_busy n.status || (is_draining n.status && not (str_eq n.current_job_id ""))

unfoldable pub leave_row : ℕ → String → Server → Server × Response
unfolding is_working
leave_row now id s = elim (lookup id s.store) [
  | none ↦ (s, denied 404 "node not registered")
  | some n ↦
      if is_working n
      then (s, denied 409 "node still has an active job; drain and wait for completion")
      else (
        record s {
          jobs = (fail_running_for_node now id "node left cluster" s.jobs).0;
          store = (remove id (set_status now id NodeStatus.offline "" s.store).0).0;
        },
        left id,
      )
]

-- handleLeave
unfoldable pub handle_leave : Call → Option String → Server → Server × Response
unfolding leave_row read_node_id
handle_leave call body s = guarded (check_node_cert true false call.peer s) λ certified s.
    elim (read_node_id body) [
      | err r ↦ (s, r)
      | ok id ↦
          if not (str_eq id certified)
          then (s, denied 403 "node_id does not match certificate")
          else leave_row call.now id s
    ]
