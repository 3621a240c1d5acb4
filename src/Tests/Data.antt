-- ===== src/Tests/Data.antt =====
-- A small cluster: an idle node with one device, a draining node, and jobs of several statuses.
use houdry.Prelude.{ℕ, String, true, List, [], ◌∷◌, Option, none, some}
use houdry.Gpu.{Gpu, Inventory, HostResources}
use houdry.Model.{Model}
use houdry.Resources.{Requirements, no_requirements, build_profile}
use houdry.Nodes.{Node, Store}
use houdry.Nodes.Status.{NodeStatus, Identity}
use houdry.Jobs.{Job, JobStore}
use houdry.Jobs.Status.{JobStatus}
use houdry.Revocation.{Revocation}
use houdry.Server.Certificates.{Server}
use houdry.Server.Agents.{Call}

abbrev pub device : Gpu
device = record {
  index = 0;
  id = "g0";
  uuid = "uuid-0";
  vendor = "nvidia";
  name = "card";
  memory_total_bytes = 8_000;
  memory_used_bytes = 1_000;
  driver_version = "";
  cuda_version = "";
  compute_capability = "";
  utilization_gpu = none;
  utilization_memory = none;
  temperature_c = none;
  pci_bus_id = "";
  source = "";
}

abbrev pub machine : String → Inventory
machine id = record {
  node_id = id;
  detected_at = 1;
  host = record { hostname = id; os = "linux"; arch = "amd64"; kernel = "" };
  gpus = device ∷ [];
  sources = [];
  warnings = [];
}

abbrev pub idle_host : HostResources
idle_host = record {
  cpu_cores = 4;
  memory_total_bytes = 1_000;
  memory_used_bytes = 10;
  arch = "amd64";
}

abbrev pub loaded_model : Model
loaded_model = record {
  name = "llama";
  tag = "8b";
  runtime = "ollama";
  state = "LOADED";
  size_bytes = 1;
  vram_bytes = 0;
  digest = "";
  family = "";
  parameter_size = "";
}

abbrev pub node_with : String → NodeStatus → Option (List Model) → Node
node_with id status models = record {
  inventory = machine id;
  status = status;
  agent_version = "1";
  current_job_id = "";
  resources = build_profile (machine id) idle_host 0;
  runtimes = "nvidia" ∷ [];
  model_runtimes = "ollama" ∷ [];
  models = models;
  joined_at = 1;
  last_seen = 100;
  remote_ip = "";
  identity = Identity.active;
  cert_fingerprint = "f1";
  cert_serial = "s1";
  cert_not_after = 1_000;
}

abbrev pub ready_node : Node
ready_node = node_with "n1" NodeStatus.ready (some (loaded_model ∷ []))

abbrev pub bare_node : Node
bare_node = node_with "n3" NodeStatus.ready none

abbrev pub draining_node : Node
draining_node = node_with "n2" NodeStatus.draining none

abbrev pub registry : Store
registry = record {
  nodes = ("n1", ready_node) ∷ ("n2", draining_node) ∷ [];
  offline = 20;
  disk = none;
  writable = true;
}

abbrev pub job_with : String → JobStatus → String → ℕ → Job
job_with id status node created = record {
  id = id;
  job_type = "gpu.smoke";
  status = status;
  node_id = node;
  preferred_node_id = "";
  requirements = record no_requirements { gpu_required = true };
  payload = [];
  created_at = created;
  started_at = 0;
  finished_at = 0;
  result = [];
  error = "";
}

abbrev pub queued_job : Job
queued_job = job_with "j1" JobStatus.queued "" 5

abbrev pub pending_job : Job
pending_job = job_with "j2" JobStatus.pending "n1" 4

abbrev pub running_job : Job
running_job = job_with "j3" JobStatus.running "n2" 3

abbrev pub finished_job : Job
finished_job = job_with "j4" JobStatus.succeeded "n2" 2

abbrev pub queue : JobStore
queue = record {
  jobs = ("j1", queued_job) ∷ ("j2", pending_job) ∷ ("j3", running_job) ∷ ("j4", finished_job) ∷ [];
  disk = none;
  writable = true;
}

abbrev pub denylist : Revocation
denylist = record { serials = []; disk = none; writable = true }

abbrev pub server : Server
server = record { store = registry; jobs = queue; denylist = denylist; token = "secret" }

abbrev pub call_of : String → Call
call_of id = record {
  now = 110;
  address = "10.0.0.1";
  peer = some (record { signed = true; common_name = id; serial = "s1" });
  collected = idle_host;
}

abbrev pub model_request : Requirements
model_request = record no_requirements {
  model_name = "llama";
  model_tag = "8b";
  model = "llama:8b";
}
