-- ===== src/Server/Views.antt =====
-- internal/server/route.go and internal/routing/catalog_io.go: the nodes and the catalog that the
-- control plane routes over; and the summary of internal/server/cluster.go with the counts of
-- internal/server/resources.go.
use houdry.Prelude.{
  ℕ, ◌+◌, ◌-◌, ◌^◌, ◌%◌, String, Bool, true, false, not, List, [], ◌∷◌, Option, none, some, map,
  leb, is_empty, length, if◌then◌else◌, count_if,
}
use houdry.Prelude.Results.{Result, ok, err}
use houdry.Gpu.{Gpu}
use houdry.Resources.{StaticGpu, DynamicGpu}
use houdry.Nodes.{Node, node_id, models_of, list}
use houdry.Nodes.Status.{status_text, is_ready}
use houdry.Jobs as Queue
use houdry.Jobs.Status.{JobStatus}
use houdry.Routing.Scoring.{CatalogEntry, NodeView, RouteRequest}
use houdry.Routing.Catalog.{default_catalog}
use houdry.Routing.Choosing.{Decision}
use houdry.Routing.Grading.{route_prompt}
use houdry.Server.Certificates.{Server, Response, denied, Credentials, authorized}

first_static : List StaticGpu → List Gpu → ℕ
first_static (g ∷ gs) hs = g.memory_total_bytes
first_static [] (h ∷ hs) = h.memory_total_bytes
first_static [] [] = 0

-- A total of 0 is no bound, and stays 0.
first_dynamic : List DynamicGpu → ℕ → ℕ
first_dynamic (g ∷ gs) total = g.memory_available_bytes
first_dynamic [] total = total

unfoldable pub view_of : Node → NodeView
unfolding first_static first_dynamic
view_of n =
    let total = first_static n.resources.static.gpus n.inventory.gpus in
    record {
      node_id = node_id n;
      host = n.inventory.host.hostname;
      status = status_text n.status;
      model_runtimes = n.model_runtimes;
      models = models_of n;
      vram_total = total;
      vram_available = first_dynamic n.resources.dynamic.gpus total;
    }

-- nodesToViews
unfoldable pub nodes_to_views : List Node → List NodeView
nodes_to_views = map view_of

-- The catalog's file: it is missing, it cannot be read or decoded, or it holds rows.
pub data CatalogFile : Type 0 where
  missing broken : CatalogFile
  rows : List CatalogEntry → CatalogFile

-- LoadCatalog; `none` is an error.
unfoldable pub load_catalog : CatalogFile → Option (List CatalogEntry)
load_catalog missing = some default_catalog
load_catalog broken = none
load_catalog (rows []) = some default_catalog
load_catalog (rows (e ∷ es)) = some (e ∷ es)

-- SaveCatalog, with whether it succeeded.
unfoldable pub save_catalog : Bool → List CatalogEntry → CatalogFile → CatalogFile × Bool
save_catalog writable es file = if writable then (rows es, true) else (file, false)

-- EnsureCatalogFile: the default catalog is written where there is no file. A catalog that could not
-- be written is an error, though the rows are answered too.
unfoldable pub ensure_catalog_file : Bool → CatalogFile → CatalogFile × Option (List CatalogEntry)
unfolding save_catalog load_catalog
ensure_catalog_file writable missing =
    let (file, saved) = save_catalog writable default_catalog missing in
    (file, if saved then some default_catalog else none)
ensure_catalog_file writable broken = (broken, load_catalog broken)
ensure_catalog_file writable (rows es) = (rows es, load_catalog (rows es))

-- The catalog that routePromptOpts goes by.
unfoldable pub catalog_or_default : Option (List CatalogEntry) → List CatalogEntry
catalog_or_default none = default_catalog
catalog_or_default (some es) = es

unfoldable pub prompt_request :
    List CatalogEntry → List Node → String → Bool → Bool → Bool → RouteRequest
unfolding nodes_to_views
prompt_request catalog nodes runtime present tools busy = record {
  catalog = catalog;
  nodes = nodes_to_views nodes;
  prefer_loaded = true;
  allow_pull = not present;
  require_present = present;
  preferred_runtime = runtime;
  image_attached = false;
  require_tools = tools;
  allow_busy = busy;
}

-- routePromptOpts, on the catalog that was read; routePrompt is the case without tools and busy nodes.
unfoldable pub route_prompt_opts :
    List CatalogEntry → String → String → Bool → Bool → Bool → Server → Decision
unfolding prompt_request
route_prompt_opts catalog prompt runtime present tools busy s =
    route_prompt default_catalog prompt
      (prompt_request catalog (list s.store) runtime present tools busy)

-- ClusterSummary
pub record ClusterSummary : Type 0 where
  pub nodes : ℕ
  pub gpus : ℕ
  pub available_vram : ℕ
  pub ready_nodes : ℕ
  pub queued_jobs : ℕ

-- TotalPhysicalGPUs
unfoldable pub total_physical_gpus : List Node → ℕ
total_physical_gpus [] = 0
total_physical_gpus (n ∷ ns) =
    (if is_empty n.resources.static.gpus
      then length n.inventory.gpus
      else length n.resources.static.gpus)
    + total_physical_gpus ns

-- sum += x, on uint64
unfoldable pub add64 : ℕ → ℕ → ℕ
add64 a b = (a + b) % 2 ^ 64

unfoldable pub add_dynamic : ℕ → List DynamicGpu → ℕ
unfolding add64
add_dynamic sum [] = sum
add_dynamic sum (g ∷ gs) = add_dynamic (add64 sum g.memory_available_bytes) gs

unfoldable pub add_inventory : ℕ → List Gpu → ℕ
unfolding add64
add_inventory sum [] = sum
add_inventory sum (g ∷ gs) =
    add_inventory
      (add64 sum (
        if leb g.memory_used_bytes g.memory_total_bytes
        then g.memory_total_bytes - g.memory_used_bytes
        else g.memory_total_bytes))
      gs

unfoldable pub node_vram : ℕ → Node → ℕ
unfolding add_dynamic add_inventory
node_vram sum n =
    if not (is_ready n.status)
    then sum
    else if is_empty n.resources.dynamic.gpus
    then add_inventory sum n.inventory.gpus
    else add_dynamic sum n.resources.dynamic.gpus

-- The loop of AvailableVRAMBytes.
unfoldable pub available_vram_from : ℕ → List Node → ℕ
unfolding node_vram
available_vram_from sum [] = sum
available_vram_from sum (n ∷ ns) = available_vram_from (node_vram sum n) ns

-- AvailableVRAMBytes
unfoldable pub available_vram_bytes : List Node → ℕ
unfolding available_vram_from
available_vram_bytes nodes = available_vram_from 0 nodes

-- SummarizeCluster
unfoldable pub summarize_cluster : List Node → ℕ → ClusterSummary
unfolding total_physical_gpus available_vram_bytes
summarize_cluster nodes queued = record {
  nodes = length nodes;
  gpus = total_physical_gpus nodes;
  available_vram = available_vram_bytes nodes;
  ready_nodes = count_if (λ (n : Node). is_ready n.status) nodes;
  queued_jobs = queued;
}

-- A handler that only reads: what it answers, or the refusal.
abbrev pub reading {ℓ} : {A : Type ℓ} → Credentials → Server → A → Result Response A
reading cred s a = if not (authorized cred s) then err (denied 401 "unauthorized") else ok a

-- handleCluster
unfoldable pub handle_cluster : Credentials → Server → Result Response (ClusterSummary × List Node)
unfolding summarize_cluster
handle_cluster cred s =
    reading cred s (
      summarize_cluster (list s.store) (Queue.count_by_status JobStatus.queued s.jobs),
      list s.store,
    )

-- handleListNodes
unfoldable pub handle_list_nodes : Credentials → Server → Result Response (List Node)
handle_list_nodes cred s = reading cred s (list s.store)

-- handleListJobs
unfoldable pub handle_list_jobs : Credentials → Server → Result Response (List Queue.Job)
handle_list_jobs cred s = reading cred s (Queue.list s.jobs)

-- handleGetJob
unfoldable pub handle_get_job : Credentials → String → Server → Result Response Queue.Job
handle_get_job cred id s =
    if not (authorized cred s)
    then err (denied 401 "unauthorized")
    else elim (Queue.lookup id s.jobs) [ none ↦ err (denied 404 "job not found") | some j ↦ ok j ]

-- handleCatalog, with what EnsureCatalogFile answers.
unfoldable pub handle_catalog :
    Credentials → Option (List CatalogEntry) → Server → Result Response (List CatalogEntry)
handle_catalog cred catalog s =
    if not (authorized cred s)
    then err (denied 401 "unauthorized")
    else elim catalog [ none ↦ err (denied 500 "catalog") | some es ↦ ok es ]
