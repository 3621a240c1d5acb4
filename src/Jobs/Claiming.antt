-- ===== src/Jobs/Claiming.antt =====
-- Claim of internal/server/jobs.go.
use houdry.Prelude.{
  ℕ, ◌≤◌, String, true, false, ◌≡◌, refl, ◌⊎◌, inl, inr, List, [], ◌∷◌, Option, none, some, arith,
  ltb, Bool-cases, All, In,
}
use houdry.Prelude.Maps.{put, values}
use houdry.Prelude.Keyed.{get_of_In}
use houdry.Jobs.{Job, JobStore, lookup, save, claim, oldest, is_claimable, started}
use houdry.Jobs.Store.{IsJobStore, job_id}

-- The choice of the loop: a claimable job, no younger than any claimable job that it met.
abbrev IsOldest : String → List Job → Option Job → Type 0
IsOldest node js none = All (λ j. is_claimable node j ≡ false) js
IsOldest node js (some c) =
    In c js
    × (is_claimable node c ≡ true)
    × All (λ j. is_claimable node j ≡ true → c.created_at ≤ j.created_at) js

-- The loop from a choice made among jobs that went before.
abbrev IsBest : String → Option Job → List Job → Option Job → Type 0
IsBest node none js r = IsOldest node js r
IsBest node (some b) js none = ⊥
IsBest node (some b) js (some c) =
    (In c js ⊎ (b ≡ c))
    × (c.created_at ≤ b.created_at)
    × All (λ j. is_claimable node j ≡ true → c.created_at ≤ j.created_at) js
    × (is_claimable node b ≡ true → is_claimable node c ≡ true)

module _ (node : String) (j : Job) (js : List Job) where
  skip_none :
      (r : Option Job) → is_claimable node j ≡ false → IsOldest node js r → IsOldest node (j ∷ js) r
  skip_none none e h = (e, h)
  skip_none (some c) e h = (inr h.0, h.1, ((λ t. cc), h.2))

  skip_some :
      (b : Job) (r : Option Job)
      → is_claimable node j ≡ false
      → IsBest node (some b) js r
      → IsBest node (some b) (j ∷ js) r
  skip_some b none e h = h
  skip_some b (some c) e h =
      (elim h.0 [ inl i ↦ inl (inr i) | inr p ↦ inr p ], h.1, ((λ t. cc), h.2), h.3)

  first_found :
      (r : Option Job)
      → is_claimable node j ≡ true
      → IsBest node (some j) js r
      → IsOldest node (j ∷ js) r
  first_found none e h = absurd h
  first_found (some c) e h = (elim h.0 [ inl i ↦ inr i | inr p ↦ inl p ], h.3 e, ((λ _. h.1), h.2))

  replaced :
      (b : Job) (r : Option Job)
      → is_claimable node j ≡ true
      → j.created_at ≤ b.created_at
      → IsBest node (some j) js r
      → IsBest node (some b) (j ∷ js) r
  replaced b none e le h = h
  replaced b (some c) e le h =
      (inl (elim h.0 [ inl i ↦ inr i | inr p ↦ inl p ]), omega arith, ((λ _. h.1), h.2), λ _. h.3 e)

  kept :
      (b : Job) (r : Option Job)
      → b.created_at ≤ j.created_at
      → IsBest node (some b) js r
      → IsBest node (some b) (j ∷ js) r
  kept b none le h = h
  kept b (some c) le h =
      (elim h.0 [ inl i ↦ inl (inr i) | inr p ↦ inr p ], h.1, ((λ _. omega arith), h.2), h.3)

oldest_best :
    (node : String) (chosen : Option Job) (js : List Job)
    → IsBest node chosen js (oldest node chosen js)
unfolding oldest
oldest_best node none [] = tt
oldest_best node (some b) [] = (inr refl, omega arith, tt, λ h. h)
oldest_best node none (j ∷ js) = elim (Bool-cases (is_claimable node j)) [
  | inl e ↦ rw e (first_found node j js _ e (oldest_best node (some j) js))
  | inr e ↦ rw e (skip_none node j js _ e (oldest_best node none js))
]
oldest_best node (some b) (j ∷ js) = elim (Bool-cases (is_claimable node j)) [
  | inl e ↦ elim (Bool-cases (ltb j.created_at b.created_at)) [
    | inl t ↦ rw (e, t) (replaced node j js b _ e (ground arith) (oldest_best node (some j) js))
    | inr t ↦ rw (e, t) (kept node j js b _ (ground arith) (oldest_best node (some b) js))
  ]
  | inr e ↦ rw e (skip_some node j js b _ e (oldest_best node (some b) js))
]

-- What a claim does: without a claimable job nothing changes; otherwise the answer is a job of the
-- store, started, that no claimable job is older than, and it alone is rewritten.
pub data Claims (now : ℕ) (node : String) (js : JobStore) : JobStore × Option Job → Type 0 where
  nothing : All (λ j. is_claimable node j ≡ false) (values js.jobs) → Claims now node js (js, none)
  taken :
      (j : Job)
      → lookup j.id js ≡ some j
      → is_claimable node j ≡ true
      → All (λ k. is_claimable node k ≡ true → j.created_at ≤ k.created_at) (values js.jobs)
      → Claims now node js
          (save (record js { jobs = put j.id (started now j) js.jobs }), some (started now j))

-- Every claim on a store of the right shape is of one of these two forms.
pub claim-Claims :
    (now : ℕ) (node : String) (js : JobStore)
    → IsJobStore js
    → Claims now node js (claim now node js)
unfolding claim
claim-Claims now node js h =
    go (oldest node none (values js.jobs)) (oldest_best node none (values js.jobs))
  where
    go :
        (r : Option Job)
        → IsOldest node (values js.jobs) r
        → Claims now node js (elim r [
          | none ↦ (js, none)
          | some j ↦
              (save (record js { jobs = put j.id (started now j) js.jobs }), some (started now j))
        ])
    go none a = nothing a
    go (some j) a = taken j (get_of_In job_id j js.jobs h.keyed a.0) a.1 a.2
