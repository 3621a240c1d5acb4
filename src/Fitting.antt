-- ===== src/Fitting.antt =====
-- Fits and ModelScore of internal/server/resources.go: which node can take a job, and how well.
pub mod Soundness
use houdry.Prelude.{
  ℕ, ◌+◌, ◌-◌, String, Bool, true, false, not, ◌&&◌, ◌||◌, List, [], ◌∷◌, Option, none, some, map,
  str_eq, leb, ltb, if◌then◌else◌, any, is_empty, ◌==◌,
}
use houdry.Prelude.Maps.{Map, get, put}
use houdry.Gpu.{Gpu}
use houdry.Model.{Identity, Model, has_model, is_loaded}
use houdry.Resources.{StaticGpu, DynamicGpu, Requirements, model_identity}
use houdry.Nodes.Status.{is_ready, no_id, is_active}
use houdry.Nodes.{Node, models_of}

bare_gpu : Gpu → StaticGpu
bare_gpu g = record {
  id = g.id;
  uuid = "";
  vendor = "";
  name = "";
  memory_total_bytes = g.memory_total_bytes;
  compute_capability = "";
  pci_bus_id = "";
}

-- The devices of the profile, or those of the inventory where the profile has none.
unfoldable pub gpus_of : Node → List StaticGpu
unfolding bare_gpu
gpus_of n =
    if is_empty n.resources.static.gpus
    then map bare_gpu n.inventory.gpus
    else n.resources.static.gpus

-- The map from ids to live figures; a later entry for an id replaces an earlier one.
index_gpus : Map DynamicGpu → List DynamicGpu → Map DynamicGpu
index_gpus m [] = m
index_gpus m (d ∷ ds) = index_gpus (put d.id d m) ds

live_gpus : Node → Map DynamicGpu
unfolding index_gpus
live_gpus n = index_gpus [] n.resources.dynamic.gpus

free_of : StaticGpu → Option DynamicGpu → ℕ
free_of g none = g.memory_total_bytes
free_of g (some d) =
    if ltb 0 d.memory_available_bytes
    then d.memory_available_bytes
    else if leb d.memory_used_bytes g.memory_total_bytes
    then g.memory_total_bytes - d.memory_used_bytes
    else g.memory_total_bytes

-- The memory that Fits takes a device to have free.
unfoldable pub free_bytes : Node → StaticGpu → ℕ
unfolding free_of live_gpus
free_bytes n g = free_of g (get g.id (live_gpus n))

-- hasRuntime
unfoldable pub has_runtime : List String → String → Bool
has_runtime runtimes want = any (λ r. str_eq r want) runtimes

fits_vram : Node → ℕ → Bool
unfolding free_bytes
fits_vram n need = any (λ g. leb need (free_bytes n g)) (gpus_of n)

fits_model : Node → Requirements → Identity → Bool
unfolding has_runtime
fits_model n r id =
    if str_eq id.name ""
    then true
    else if not (str_eq id.runtime "") && not (has_runtime n.model_runtimes id.runtime)
    then false
    else if str_eq id.runtime "" && is_empty n.model_runtimes
    then false
    else if r.require_model_present
    then has_model (models_of n) id
    else has_model (models_of n) id || not (is_empty n.model_runtimes)

needs_gpu : Requirements → Bool
needs_gpu r = r.gpu_required || ltb 0 r.min_vram_bytes || not (str_eq (model_identity r).name "")

-- Fits
unfoldable pub fits : Node → Requirements → Bool
unfolding fits_vram fits_model needs_gpu
fits n r =
    if not (is_ready n.status)
    then false
    else if not (no_id n.identity) && not (is_active n.identity)
    then false
    else if needs_gpu r && r.gpu_required && is_empty (gpus_of n)
    then false
    else if ltb 0 r.min_vram_bytes && not (fits_vram n r.min_vram_bytes)
    then false
    else fits_model n r (model_identity r)

locality : Node → Identity → ℕ
locality n id =
    if is_loaded (models_of n) id then 100 else if has_model (models_of n) id then 50 else 0

runtime_bonus : Node → Identity → ℕ
runtime_bonus n id =
    if not (str_eq id.runtime "")
    then if has_runtime n.model_runtimes id.runtime then 10 else 0
    else if is_empty n.model_runtimes
    then 0
    else 10

-- ModelScore
unfoldable pub model_score : Node → Requirements → ℕ
unfolding locality runtime_bonus
model_score n r =
    let id = model_identity r in if str_eq id.name "" then 0 else locality n id + runtime_bonus n id
