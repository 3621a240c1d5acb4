-- ===== src/Fitting/Soundness.antt =====
-- Fits of internal/server/resources.go against the requirements read one by one, and the order that
-- ModelScore gives.
use houdry.Prelude.{
  ℕ, ◌≤◌, ◌<◌, String, Bool, true, false, ◌≡◌, ◌≢◌, refl, ◌⊎◌, inl, inr, ◌↔◌, List, [], ◌∷◌, arith,
  str_eq, eq_iff, leb, Bool-cases, any, Some, Some-map,
}
use houdry.Model.{has_model, is_loaded}
use houdry.Model.Matching.{has_model_of_loaded}
use houdry.Resources.{Requirements, model_identity}
use houdry.Nodes.Status.{NodeStatus, Identity as NodeIdentity}
use houdry.Nodes.{Node, models_of}
use houdry.Fitting.{fits, fits_vram, fits_model, gpus_of, free_bytes, has_runtime, model_score}

any_iff {ℓ} :
    {A : Type ℓ} (p : A → Bool) (xs : List A) → (any p xs ≡ true) ↔ Some (λ x. p x ≡ true) xs
any_iff p [] = (λ h. cc, λ h. absurd h)
any_iff p (x ∷ xs) = elim (Bool-cases (p x)) [
  | inl e ↦ rw e ((λ _. inl refl, λ _. refl))
  | inr e ↦
      rw e
        ((λ h. inr ((any_iff p xs).0 h), λ h. elim h [ inl q ↦ cc | inr q ↦ (any_iff p xs).1 q ]))
]

-- The demands that a model makes of the node's model runtimes and inventory.
pub record HasRuntime (n : Node) (r : Requirements) : Type 0 where
  pub preferred :
      (model_identity r).runtime ≢ ""
      → has_runtime n.model_runtimes (model_identity r).runtime ≡ true
  pub any_runtime : n.model_runtimes ≢ []
  pub present : r.require_model_present ≡ true → has_model (models_of n) (model_identity r) ≡ true

-- What a job asks of a node, read off the requirements one by one.
pub record Suits (n : Node) (r : Requirements) : Type 0 where
  pub ready : n.status ≡ NodeStatus.ready
  pub trusted : (n.identity ≡ NodeIdentity.absent) ⊎ (n.identity ≡ NodeIdentity.active)
  pub device : r.gpu_required ≡ true → gpus_of n ≢ []
  pub memory : 0 < r.min_vram_bytes → Some (λ g. r.min_vram_bytes ≤ free_bytes n g) (gpus_of n)
  pub runtime : (model_identity r).name ≢ "" → HasRuntime n r

room_iff :
    (n : Node) (need : ℕ)
    → (fits_vram n need ≡ true) ↔ Some (λ g. need ≤ free_bytes n g) (gpus_of n)
unfolding fits_vram
room_iff n need = (
  λ h.
      Some-map (λ g. leb need (free_bytes n g) ≡ true) (λ g. need ≤ free_bytes n g)
        (λ g p. ground arith) (gpus_of n)
        ((any_iff (λ g. leb need (free_bytes n g)) (gpus_of n)).0 h),
  λ s. (any_iff (λ g. leb need (free_bytes n g)) (gpus_of n)).1 (
      Some-map (λ g. need ≤ free_bytes n g) (λ g. leb need (free_bytes n g) ≡ true)
        (λ g p. ground arith) (gpus_of n) s),
)

runtime_listed :
    (runtimes : List String) (want : String) → has_runtime runtimes want ≡ true → runtimes ≢ []
unfolding has_runtime
runtime_listed [] want h = cc
runtime_listed (x ∷ xs) want h = λ e. cc

model_fits :
    (n : Node) (r : Requirements)
    → fits_model n r (model_identity r) ≡ true
    → (model_identity r).name ≢ ""
    → HasRuntime n r
unfolding fits_model
model_fits n r h named = record {
  preferred =
      λ p. ground (arith, eq_iff (model_identity r).runtime "", eq_iff (model_identity r).name "");
  any_runtime = λ e. ground (
    arith,
    e,
    eq_iff (model_identity r).runtime "",
    eq_iff (model_identity r).name "",
    runtime_listed n.model_runtimes (model_identity r).runtime,
  );
  present =
      λ p. ground (arith, eq_iff (model_identity r).runtime "", eq_iff (model_identity r).name "");
}

fits-Suits : (n : Node) (r : Requirements) → fits n r ≡ true → Suits n r
unfolding fits
fits-Suits n r h = record {
  ready = ground arith;
  trusted = ground arith;
  device = λ p q. ground (arith, p, q);
  memory = λ p. (room_iff n r.min_vram_bytes).0 (ground arith);
  runtime = model_fits n r (ground arith);
}

fits_model_of :
    (n : Node) (r : Requirements)
    → ((model_identity r).name ≢ "" → HasRuntime n r)
    → fits_model n r (model_identity r) ≡ true
unfolding fits_model
fits_model_of n r h = elim (Bool-cases (str_eq (model_identity r).name "")) [
  | inl e ↦ rw e refl
  | inr e ↦
      let s = h (λ p. ground (arith, eq_iff (model_identity r).name "")) in
      ground (arith, s.preferred, s.any_runtime, s.present, eq_iff (model_identity r).runtime "")
]

Suits-fits : (n : Node) (r : Requirements) → Suits n r → fits n r ≡ true
unfolding fits
Suits-fits n r s = ground (
  arith,
  s.ready,
  s.trusted,
  s.device,
  λ (p : 0 < r.min_vram_bytes). (room_iff n r.min_vram_bytes).1 (s.memory p),
  fits_model_of n r s.runtime,
)

-- Fits holds of exactly the nodes that suit the job: READY, not under an identity other than ACTIVE,
-- with a device if one is asked for, with one device that has the asked memory free, and for a model
-- with a model runtime, the preferred one if there is one, and the model present if that is asked.
pub fits_iff : (n : Node) (r : Requirements) → (fits n r ≡ true) ↔ Suits n r
fits_iff n r = (fits-Suits n r, Suits-fits n r)

-- For a model job, a node where the model is loaded scores more than any node where it is not,
-- whatever runtimes the two nodes have.
pub score_loaded :
    (n m : Node) (r : Requirements)
    → (model_identity r).name ≢ ""
    → is_loaded (models_of n) (model_identity r) ≡ true
    → is_loaded (models_of m) (model_identity r) ≡ false
    → model_score m r < model_score n r
unfolding model_score
score_loaded n m r named p q = ground (arith, eq_iff (model_identity r).name "")

-- For a model job, a node where the model is present scores more than any node where it is not,
-- whatever runtimes the two nodes have.
pub score_present :
    (n m : Node) (r : Requirements)
    → (model_identity r).name ≢ ""
    → has_model (models_of n) (model_identity r) ≡ true
    → has_model (models_of m) (model_identity r) ≡ false
    → model_score m r < model_score n r
unfolding model_score
score_present n m r named p q =
    ground (
      arith,
      eq_iff (model_identity r).name "",
      has_model_of_loaded (models_of m) (model_identity r),
    )
