-- ===== src/Resources/Shorthand.antt =====
-- NormalizeModelFields and ModelIdentity of internal/server/resources.go.
use houdry.Prelude.{◌≡◌, ◌∙◌, arith, eq_iff, str_eq, false, not, ◌&&◌}
use houdry.Resources.{
  Requirements, model_identity, normalize_model_fields, fill_name, fill_shorthand,
}

fill_name-identity : (r : Requirements) → model_identity (fill_name r) ≡ model_identity r
unfolding model_identity fill_name
fill_name-identity r = ground arith

fill_shorthand-identity : (r : Requirements) → model_identity (fill_shorthand r) ≡ model_identity r
unfolding model_identity fill_shorthand
fill_shorthand-identity r = ground arith

-- Normalising does not change which model a request means.
pub model_identity-normalize :
    (r : Requirements) → model_identity (normalize_model_fields r) ≡ model_identity r
unfolding normalize_model_fields
model_identity-normalize r = fill_shorthand-identity (fill_name r) ∙ fill_name-identity r

-- After normalising, the name field is the name of the model that the request means.
pub normalize-name :
    (r : Requirements) → (normalize_model_fields r).model_name ≡ (model_identity r).name
unfolding normalize_model_fields fill_name fill_shorthand model_identity
normalize-name r = ground (arith, eq_iff r.model_name "")

-- The fields that normalising never changes, and those that it leaves where no short form is given.
pub record IsKept (r t : Requirements) : Type 0 where
  pub gpu : t.gpu_required ≡ r.gpu_required
  pub vram : t.min_vram_bytes ≡ r.min_vram_bytes
  pub name : t.model_name ≡ r.model_name
  pub tag : t.model_tag ≡ r.model_tag
  pub runtime : t.model_runtime ≡ r.model_runtime
  pub present : t.require_model_present ≡ r.require_model_present

-- The short form is missing, or the name is given.
abbrev pub IsSpelled : Requirements → Type 0
IsSpelled r = (str_eq r.model_name "" && not (str_eq r.model "")) ≡ false

pub normalize-IsKept :
    (r : Requirements)
    → IsSpelled r
    → IsKept r (normalize_model_fields r) × IsSpelled (normalize_model_fields r)
unfolding normalize_model_fields fill_name fill_shorthand
normalize-IsKept r h = (
  record {
    gpu = ground arith;
    vram = ground arith;
    name = ground arith;
    tag = ground arith;
    runtime = ground arith;
    present = ground arith;
  },
  ground arith,
)
