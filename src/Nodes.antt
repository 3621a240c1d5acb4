-- ===== src/Nodes.antt =====
-- internal/server/store.go: the node registry. Times are numbers of nanoseconds and 0 is Go's zero
-- time; each operation takes the time at which it runs. `disk` is the list that nodes.json decodes
-- to; a write happens only while the disk is writable, and its failure is ignored as in the code.
pub mod Status
pub mod Registry
pub mod Draining
pub mod Timeout
pub mod Merging
use Status.{
  NodeStatus, is_unset, is_ready, is_busy, is_draining, is_offline, is_joined, Identity, no_id,
}
use houdry.Prelude.{
  ℕ, ◌-◌, String, Bool, true, false, not, ◌&&◌, ◌||◌, List, [], ◌∷◌, Option, none, some, map,
  str_eq, ltb, if◌then◌else◌, is_empty, is_some, ◌==◌,
}
use houdry.Prelude.Maps.{Map, get, put, delete, values, map_values}
use houdry.Gpu.{Gpu, Inventory, HostResources}
use houdry.Model.{Model}
use houdry.Resources.{ResourceProfile, build_profile}

pub record Node : Type 0 where
  pub inventory : Inventory
  pub status : NodeStatus
  pub agent_version : String
  pub current_job_id : String
  pub resources : ResourceProfile
  pub runtimes : List String
  pub model_runtimes : List String
  pub models : Option (List Model)
  pub joined_at : ℕ
  pub last_seen : ℕ
  pub remote_ip : String
  pub identity : Identity
  pub cert_fingerprint : String
  pub cert_serial : String
  pub cert_not_after : ℕ

-- Node.NodeID, a field of the embedded inventory
abbrev pub node_id : Node → String
node_id n = n.inventory.node_id

-- Node.Models as a list: a nil slice has no elements.
abbrev pub models_of : Node → List Model
models_of n = elim n.models [ none ↦ [] | some ms ↦ ms ]

pub record Store : Type 0 where
  pub nodes : Map Node
  pub offline : ℕ
  pub disk : Option (List Node)
  pub writable : Bool

-- saveLocked
unfoldable pub save : Store → Store
save s = if s.writable then record s { disk = some (values s.nodes) } else s

or_text : String → String → String
or_text new old = if str_eq new "" then old else new

or_list {ℓ} : {A : Type ℓ} → List A → List A → List A
or_list new old = if is_empty new then old else new

or_none {ℓ} : {A : Type ℓ} → Option A → Option A → Option A
or_none none old = old
or_none (some new) old = some new

merged_status : Node → Node → NodeStatus
merged_status n existing = if is_unset n.status then existing.status else n.status

-- What Upsert keeps of a row that is there already.
unfoldable pub merge : Node → Node → Node
unfolding or_text or_list or_none merged_status
merge n existing = record n {
  joined_at = existing.joined_at;
  status = merged_status n existing;
  agent_version = or_text n.agent_version existing.agent_version;
  current_job_id =
      if str_eq n.current_job_id "" && not (is_ready (merged_status n existing))
      then existing.current_job_id
      else n.current_job_id;
  runtimes = or_list n.runtimes existing.runtimes;
  model_runtimes = or_list n.model_runtimes existing.model_runtimes;
  models = or_none n.models existing.models;
  identity = if no_id n.identity then existing.identity else n.identity;
  cert_fingerprint = or_text n.cert_fingerprint existing.cert_fingerprint;
  cert_serial = if str_eq n.cert_fingerprint "" then existing.cert_serial else n.cert_serial;
  cert_not_after =
      if str_eq n.cert_fingerprint "" then existing.cert_not_after else n.cert_not_after;
}

first_join : ℕ → Node → Node
first_join now n = if n.joined_at == 0 then record n { joined_at = now } else n

upserted : ℕ → Node → Option Node → Node
unfolding merge first_join
upserted now n (some existing) = merge n existing
upserted now n none = first_join now n

touch : ℕ → Node → Node
touch now n = record n {
  status = if is_unset n.status then NodeStatus.joined else n.status;
  last_seen = now;
}

-- Upsert, with the row that it returns.
unfoldable pub upsert : ℕ → Node → Store → Store × Node
unfolding upserted touch save
upsert now n s =
    let row = touch now (upserted now n (get (node_id n) s.nodes)) in
    (save (record s { nodes = put (node_id n) row s.nodes }), row)

has_resources : Node → Bool
has_resources n = not (n.resources.static.cpu_cores == 0) || not (is_empty n.resources.static.gpus)

-- The status that a heartbeat leaves behind.
next_status : NodeStatus → NodeStatus → NodeStatus
next_status existing incoming =
    if is_draining existing
    then if is_offline incoming then NodeStatus.offline else NodeStatus.draining
    else if not (is_unset incoming)
    then incoming
    else if is_offline existing || is_joined existing
    then NodeStatus.ready
    else existing

-- The current job that a heartbeat leaves behind.
next_job : Node → Node → String
next_job existing n =
    if is_draining existing.status
    then if is_offline n.status then "" else n.current_job_id
    else if not (is_unset n.status)
    then if is_ready n.status
      then ""
      else if not (str_eq n.current_job_id "")
      then n.current_job_id
      else existing.current_job_id
    else existing.current_job_id

unfoldable pub beat : ℕ → Node → Node → Node
unfolding has_resources next_status next_job or_text or_list or_none
beat now n existing = record existing {
  inventory = n.inventory;
  resources = if has_resources n then n.resources else existing.resources;
  runtimes = or_list n.runtimes existing.runtimes;
  model_runtimes = or_list n.model_runtimes existing.model_runtimes;
  models = or_none n.models existing.models;
  status = next_status existing.status n.status;
  current_job_id = next_job existing n;
  agent_version = or_text n.agent_version existing.agent_version;
  remote_ip = or_text n.remote_ip existing.remote_ip;
  identity = if no_id n.identity then existing.identity else n.identity;
  last_seen = now;
}

-- The operations on a row that must be there: the store with the new row, or no answer.
unfoldable pub modify : (Node → Node) → String → Store → Store × Option Node
unfolding save
modify f id s = elim (get id s.nodes) [
  | none ↦ (s, none)
  | some n ↦ (save (record s { nodes = put id (f n) s.nodes }), some (f n))
]

unfoldable pub heartbeat : ℕ → Node → Store → Store × Option Node
unfolding modify
heartbeat now n s = modify (beat now n) (node_id n) s

unfoldable pub with_status : ℕ → NodeStatus → String → Node → Node
with_status now status job_id n = record n {
  status = if is_ready status && is_draining n.status then NodeStatus.draining else status;
  current_job_id = job_id;
  last_seen = now;
}

unfoldable pub set_status : ℕ → String → NodeStatus → String → Store → Store × Option Node
unfolding modify with_status
set_status now id status job_id s = modify (with_status now status job_id) id s

unfoldable pub drained : ℕ → Node → Node
drained now n = record n {
  status = NodeStatus.draining;
  current_job_id = if is_busy n.status then n.current_job_id else "";
  last_seen = now;
}

unfoldable pub set_drain : ℕ → String → Store → Store × Option Node
unfolding modify drained
set_drain now id s = modify (drained now) id s

unfoldable pub set_identity : String → Identity → Store → Store × Option Node
unfolding modify
set_identity id identity s = modify (λ n. record n { identity = identity }) id s

unfoldable pub remove : String → Store → Store × Bool
unfolding save
remove id s = elim (get id s.nodes) [
  | none ↦ (s, false)
  | some n ↦ (save (record s { nodes = delete id s.nodes }), true)
]

-- A row that the sweep takes offline: an agent that is not offline yet and was last seen before
-- `now - offline`.
unfoldable pub is_stale : ℕ → ℕ → Node → Bool
is_stale now offline n =
    not (str_eq n.agent_version "") && not (is_offline n.status) && ltb n.last_seen (now - offline)

unfoldable pub expire : ℕ → ℕ → Node → Node
unfolding is_stale
expire now offline n =
    if is_stale now offline n
    then record n { status = NodeStatus.offline; current_job_id = "" }
    else n

stale_keys : ℕ → ℕ → Map Node → List String
stale_keys now offline [] = []
stale_keys now offline ((id, n) ∷ m) =
    if is_stale now offline n then id ∷ stale_keys now offline m else stale_keys now offline m

-- MarkStaleOffline, with the ids that it took offline.
unfoldable pub mark_stale_offline : ℕ → Store → Store × List String
unfolding stale_keys save
mark_stale_offline now s =
    let changed = stale_keys now s.offline s.nodes in
    let swept = record s { nodes = map_values (expire now s.offline) s.nodes } in
    (if is_empty changed then swept else save swept, changed)

-- Store.List
abbrev pub list : Store → List Node
list s = values s.nodes

-- Store.Get
abbrev pub lookup : String → Store → Option Node
lookup id s = get id s.nodes

loaded_row : Node → Node
loaded_row n = record n {
  status = if is_unset n.status then NodeStatus.joined else n.status;
  resources =
      if is_empty n.resources.static.gpus && not (is_empty n.inventory.gpus)
      then build_profile n.inventory
          (record {
            cpu_cores = 0;
            memory_total_bytes = 0;
            memory_used_bytes = 0;
            arch = n.inventory.host.arch;
          })
          0
      else n.resources;
}

load_rows : List Node → Map Node → Map Node
unfolding loaded_row
load_rows [] m = m
load_rows (n ∷ ns) m =
    load_rows ns (if str_eq (node_id n) "" then m else put (node_id n) (loaded_row n) m)

-- NewStore on what the file decodes to; without a file the registry is empty.
unfoldable pub open_store : ℕ → Bool → Option (List Node) → Store
unfolding load_rows
open_store offline writable disk = record {
  nodes = elim disk [ none ↦ [] | some rows ↦ load_rows rows [] ];
  offline = offline;
  disk = disk;
  writable = writable;
}
