-- ===== src/Resources.antt =====
-- internal/server/resources.go: the resource profile of a node and the requirements of a job. Byte
-- counts are uint64, and the differences taken are guarded.
pub mod Profile
pub mod Shorthand
use houdry.Prelude.{
  ℕ, ◌-◌, String, Bool, ◌&&◌, List, [], ◌∷◌, Option, str_eq, not, leb, if◌then◌else◌, map,
}
use houdry.Gpu.{Gpu, Inventory, HostResources}
use houdry.Model.{Identity, parse_ref, ref}

pub record StaticGpu : Type 0 where
  pub id : String
  pub uuid : String
  pub vendor : String
  pub name : String
  pub memory_total_bytes : ℕ
  pub compute_capability : String
  pub pci_bus_id : String

pub record DynamicGpu : Type 0 where
  pub id : String
  pub memory_used_bytes : ℕ
  pub memory_available_bytes : ℕ
  pub utilization_gpu : Option ℕ
  pub utilization_memory : Option ℕ

pub record StaticResources : Type 0 where
  pub cpu_cores : ℕ
  pub memory_total_bytes : ℕ
  pub arch : String
  pub gpus : List StaticGpu

pub record DynamicResources : Type 0 where
  pub memory_used_bytes : ℕ
  pub active_jobs : ℕ
  pub gpus : List DynamicGpu

pub record ResourceProfile : Type 0 where
  pub static : StaticResources
  pub dynamic : DynamicResources

pub record Requirements : Type 0 where
  pub gpu_required : Bool
  pub min_vram_bytes : ℕ
  pub model_name : String
  pub model_tag : String
  pub model_runtime : String
  pub require_model_present : Bool
  pub model : String

abbrev pub no_requirements : Requirements
no_requirements = record {
  gpu_required = Bool.false;
  min_vram_bytes = 0;
  model_name = "";
  model_tag = "";
  model_runtime = "";
  require_model_present = Bool.false;
  model = "";
}

-- Requirements.ModelIdentity: the named fields, or the shorthand where no name is given.
unfoldable pub model_identity : Requirements → Identity
model_identity r =
    let parsed = parse_ref r.model in
    if str_eq r.model_name "" && not (str_eq r.model "")
    then record {
      name = parsed.name;
      tag = if str_eq r.model_tag "" then parsed.tag else r.model_tag;
      runtime = r.model_runtime;
    }
    else record { name = r.model_name; tag = r.model_tag; runtime = r.model_runtime }

fill_name : Requirements → Requirements
fill_name r =
    let parsed = parse_ref r.model in
    if str_eq r.model_name "" && not (str_eq r.model "")
    then record r {
      model_name = parsed.name;
      model_tag = if str_eq r.model_tag "" then parsed.tag else r.model_tag;
    }
    else r

fill_shorthand : Requirements → Requirements
fill_shorthand r =
    if str_eq r.model "" && not (str_eq r.model_name "")
    then record r { model = ref (record { name = r.model_name; tag = r.model_tag; runtime = "" }) }
    else r

-- Requirements.NormalizeModelFields
unfoldable pub normalize_model_fields : Requirements → Requirements
unfolding fill_name fill_shorthand
normalize_model_fields r = fill_shorthand (fill_name r)

gpu_id : Gpu → String
gpu_id g = if str_eq g.id "" then g.uuid else g.id

unfoldable pub static_gpu : Gpu → StaticGpu
unfolding gpu_id
static_gpu g = record {
  id = gpu_id g;
  uuid = g.uuid;
  vendor = g.vendor;
  name = g.name;
  memory_total_bytes = g.memory_total_bytes;
  compute_capability = g.compute_capability;
  pci_bus_id = g.pci_bus_id;
}

-- Free memory, 0 where more is in use than there is.
unfoldable pub available : ℕ → ℕ → ℕ
available total used = if leb used total then total - used else 0

unfoldable pub dynamic_gpu : Gpu → DynamicGpu
unfolding gpu_id available
dynamic_gpu g = record {
  id = gpu_id g;
  memory_used_bytes = g.memory_used_bytes;
  memory_available_bytes = available g.memory_total_bytes g.memory_used_bytes;
  utilization_gpu = g.utilization_gpu;
  utilization_memory = g.utilization_memory;
}

-- The last of firstNonEmpty's arguments decides if all before it are empty.
unfoldable pub first_non_empty : List String → String
first_non_empty [] = ""
first_non_empty (v ∷ vs) = if str_eq v "" then first_non_empty vs else v

-- BuildProfile
unfoldable pub build_profile : Inventory → HostResources → ℕ → ResourceProfile
unfolding static_gpu dynamic_gpu first_non_empty
build_profile inv host active_jobs = record {
  static = record {
    cpu_cores = host.cpu_cores;
    memory_total_bytes = host.memory_total_bytes;
    arch = first_non_empty (host.arch ∷ inv.host.arch ∷ []);
    gpus = map static_gpu inv.gpus;
  };
  dynamic = record {
    memory_used_bytes = host.memory_used_bytes;
    active_jobs = active_jobs;
    gpus = map dynamic_gpu inv.gpus;
  };
}
