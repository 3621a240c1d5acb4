-- ===== src/Server/Reading.antt =====
-- SummarizeCluster of internal/server/cluster.go and AvailableVRAMBytes of resources.go.
use houdry.Prelude.{
  ℕ, ◌+◌, ◌-◌, ◌^◌, ◌%◌, ◌≤◌, ◌<◌, ◌≡◌, refl, ◌∙◌, inl, inr, List, [], ◌∷◌, arith, leb, is_empty,
  length, if◌then◌else◌, Bool-cases, count_if,
}
use houdry.Gpu.{Gpu}
use houdry.Resources.{DynamicGpu}
use houdry.Nodes.{Node}
use houdry.Nodes.Status.{is_ready}
use houdry.Server.Views.{
  add64, add_dynamic, add_inventory, node_vram, available_vram_from, available_vram_bytes,
  summarize_cluster,
}

-- The memory of a device that is not in use; all of it where more is in use than there is.
abbrev pub free_of : Gpu → ℕ
free_of g =
    if leb g.memory_used_bytes g.memory_total_bytes
    then g.memory_total_bytes - g.memory_used_bytes
    else g.memory_total_bytes

abbrev pub dynamic_total : List DynamicGpu → ℕ
dynamic_total [] = 0
dynamic_total (g ∷ gs) = g.memory_available_bytes + dynamic_total gs

abbrev pub inventory_total : List Gpu → ℕ
inventory_total [] = 0
inventory_total (g ∷ gs) = free_of g + inventory_total gs

-- The free memory of a node by its resources, or by its inventory where it reported none.
abbrev pub free_total : Node → ℕ
free_total n =
    if is_empty n.resources.dynamic.gpus
    then inventory_total n.inventory.gpus
    else dynamic_total n.resources.dynamic.gpus

-- The free memory of the READY nodes, without a bound.
abbrev pub ready_total : List Node → ℕ
ready_total [] = 0
ready_total (n ∷ ns) = (if is_ready n.status then free_total n else 0) + ready_total ns

add64-lt : (a b : ℕ) → add64 a b < 2 ^ 64
unfolding add64
add64-lt a b = omega arith

add64-mod : (a b c : ℕ) → (add64 a b + c) % 2 ^ 64 ≡ (a + (b + c)) % 2 ^ 64
unfolding add64
add64-mod a b c = omega arith

small_mod : (a : ℕ) → a < 2 ^ 64 → a ≡ (a + 0) % 2 ^ 64
small_mod a h = omega (arith, h)

dynamic_mod :
    (sum : ℕ) (gs : List DynamicGpu)
    → sum < 2 ^ 64
    → add_dynamic sum gs ≡ (sum + dynamic_total gs) % 2 ^ 64
unfolding add_dynamic
dynamic_mod sum [] h = small_mod sum h
dynamic_mod sum (g ∷ gs) h =
    dynamic_mod (add64 sum g.memory_available_bytes) gs (add64-lt sum g.memory_available_bytes)
    ∙ add64-mod sum g.memory_available_bytes (dynamic_total gs)

inventory_mod :
    (sum : ℕ) (gs : List Gpu)
    → sum < 2 ^ 64
    → add_inventory sum gs ≡ (sum + inventory_total gs) % 2 ^ 64
unfolding add_inventory
inventory_mod sum [] h = small_mod sum h
inventory_mod sum (g ∷ gs) h =
    inventory_mod (add64 sum (free_of g)) gs (add64-lt sum (free_of g))
    ∙ add64-mod sum (free_of g) (inventory_total gs)

node_mod :
    (sum : ℕ) (n : Node)
    → sum < 2 ^ 64
    → node_vram sum n ≡ (sum + (if is_ready n.status then free_total n else 0)) % 2 ^ 64
unfolding node_vram
node_mod sum n h = elim (Bool-cases (is_ready n.status)) [
  | inr e ↦ rw e (small_mod sum h)
  | inl e ↦ elim (Bool-cases (is_empty n.resources.dynamic.gpus)) [
    | inl i ↦ rw (e, i) (inventory_mod sum n.inventory.gpus h)
    | inr i ↦ rw (e, i) (dynamic_mod sum n.resources.dynamic.gpus h)
  ]
]

wrap : (a b c s : ℕ) → s ≡ (a + b) % 2 ^ 64 → (s + c) % 2 ^ 64 ≡ (a + (b + c)) % 2 ^ 64
wrap a b c s h = omega (arith, h)

wrapped_lt : (a s : ℕ) → s ≡ a % 2 ^ 64 → s < 2 ^ 64
wrapped_lt a s h = omega (arith, h)

from_mod :
    (sum : ℕ) (ns : List Node)
    → sum < 2 ^ 64
    → available_vram_from sum ns ≡ (sum + ready_total ns) % 2 ^ 64
unfolding available_vram_from
from_mod sum [] h = small_mod sum h
from_mod sum (n ∷ ns) h =
    from_mod (node_vram sum n) ns (wrapped_lt _ _ (node_mod sum n h))
    ∙ wrap sum _ (ready_total ns) (node_vram sum n) (node_mod sum n h)

ready-le : (ns : List Node) → count_if (λ (n : Node). is_ready n.status) ns ≤ length ns
ready-le [] = omega arith
ready-le (n ∷ ns) = ground (arith, ready-le ns)

-- The summary of a cluster counts its nodes, of which at most all are READY, and reports the free
-- memory of the READY nodes modulo 2 ^ 64: exactly, unless that memory reaches 2 ^ 64 bytes.
pub summarize_cluster_lem :
    (nodes : List Node) (queued : ℕ)
    → ((summarize_cluster nodes queued).nodes ≡ length nodes)
      × ((summarize_cluster nodes queued).ready_nodes ≤ (summarize_cluster nodes queued).nodes)
      × ((summarize_cluster nodes queued).available_vram ≡ ready_total nodes % 2 ^ 64)
unfolding summarize_cluster available_vram_bytes
summarize_cluster_lem nodes queued =
    (refl, ready-le nodes, from_mod 0 nodes (omega arith) ∙ omega arith)
