-- ===== src/Gpu.antt =====
-- internal/gpu/model.go and the host record of internal/host/resources.go: what a node reports of
-- its hardware. Byte counts are uint64 and stay numbers; utilisation percentages may be missing.
use houdry.Prelude.{ℕ, String, List, Option}

pub record Gpu : Type 0 where
  pub index : ℕ
  pub id : String
  pub uuid : String
  pub vendor : String
  pub name : String
  pub memory_total_bytes : ℕ
  pub memory_used_bytes : ℕ
  pub driver_version : String
  pub cuda_version : String
  pub compute_capability : String
  pub utilization_gpu : Option ℕ
  pub utilization_memory : Option ℕ
  pub temperature_c : Option ℕ
  pub pci_bus_id : String
  pub source : String

pub record Host : Type 0 where
  pub hostname : String
  pub os : String
  pub arch : String
  pub kernel : String

pub record Inventory : Type 0 where
  pub node_id : String
  pub detected_at : ℕ
  pub host : Host
  pub gpus : List Gpu
  pub sources : List String
  pub warnings : List String

-- host.Resources
pub record HostResources : Type 0 where
  pub cpu_cores : ℕ
  pub memory_total_bytes : ℕ
  pub memory_used_bytes : ℕ
  pub arch : String
