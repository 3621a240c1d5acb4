-- ===== src/Resources/Profile.antt =====
-- BuildProfile of internal/server/resources.go.
use houdry.Prelude.{ℕ, ◌≤◌, ◌≡◌, refl, List, [], ◌∷◌, map, arith}
use houdry.Gpu.{Gpu, Inventory, HostResources}
use houdry.Resources.{StaticGpu, DynamicGpu, static_gpu, dynamic_gpu, build_profile, available}

-- Static and dynamic entries describe the same devices in the same order, and no device offers more
-- memory than it has.
abbrev pub Agree : List StaticGpu → List DynamicGpu → Type 0
Agree [] [] = Unit
Agree [] (d ∷ ds) = ⊥
Agree (s ∷ ss) [] = ⊥
Agree (s ∷ ss) (d ∷ ds) =
    (s.id ≡ d.id) × (d.memory_available_bytes ≤ s.memory_total_bytes) × Agree ss ds

available-le : (total used : ℕ) → available total used ≤ total
unfolding available
available-le total used = ground arith

gpus-Agree : (gpus : List Gpu) → Agree (map static_gpu gpus) (map dynamic_gpu gpus)
unfolding static_gpu dynamic_gpu
gpus-Agree [] = tt
gpus-Agree (g ∷ gpus) =
    (refl, available-le g.memory_total_bytes g.memory_used_bytes, gpus-Agree gpus)

-- The profile of an inventory has a static and a dynamic entry for each device, in order, under one
-- id, and the memory said to be available never exceeds the device's total.
pub build_profile-Agree :
    (inv : Inventory) (host : HostResources) (active : ℕ)
    → Agree (build_profile inv host active).static.gpus (build_profile inv host active).dynamic.gpus
unfolding build_profile
build_profile-Agree inv host active = gpus-Agree inv.gpus
