-- ===== src/Jobs/Waiting.antt =====
-- WaitJob of internal/server/wait.go. The wait polls: `seen k` is the store at the k-th look, and
-- `ends k` is whether the wait then finds its context ended, rather than the next tick.
use native.Mathlib.Decide.{dec_lt}
use houdry.Prelude.{
  false, ◌⊎◌, refl, ℕ, zero, suc, ◌+◌, ◌≤◌, ◌<◌, String, Bool, true, ◌||◌, ◌≡◌, ◌≢◌, sym, ap, subst,
  inl, inr, Option, none, some, arith, if◌then◌else◌, Bool-cases, Option-cases,
}
use houdry.Jobs.{Job, JobStore, lookup}
use houdry.Jobs.Status.{JobStatus, is_succeeded, is_failed}

pub data WaitEnd : Type 0 where
  -- The job has an outcome; it is not there; the context ended first; the fuel ran out.
  finished : Job → WaitEnd
  missing : WaitEnd
  cancelled : Job → WaitEnd
  exhausted : WaitEnd

abbrev pub has_outcome : Job → Bool
has_outcome j = is_succeeded j.status || is_failed j.status

module _ (id : String) (seen : ℕ → JobStore) (ends : ℕ → Bool) where
  -- What the wait returns at its k-th look, if it does.
  unfoldable pub look : ℕ → Option WaitEnd
  look k = elim (lookup id (seen k)) [
    | none ↦ some missing
    | some j ↦
        if has_outcome j then some (finished j) else if ends k then some (cancelled j) else none
  ]

  abbrev pub or_go_on : Option WaitEnd → WaitEnd → WaitEnd
  or_go_on none rest = rest
  or_go_on (some e) rest = e

  -- WaitJob from its k-th look on.
  unfoldable pub wait_job : ℕ → ℕ → WaitEnd
  unfolding look
  wait_job zero k = exhausted
  wait_job (suc fuel) k = or_go_on (look k) (wait_job fuel (suc k))

  -- The first look at which the wait returns.
  pub record Returns (from : ℕ) (deadline : ℕ) (result : WaitEnd) : Type 0 where
    pub at : ℕ
    pub after : from ≤ at
    pub before : at ≤ deadline
    pub returned : look at ≡ some result
    pub went_on : (i : ℕ) → from ≤ i → i < at → look i ≡ none

  deadline_looks : (k : ℕ) → ends k ≡ true → look k ≢ none
  unfolding look
  deadline_looks k h e = elim (Option-cases (lookup id (seen k))) [
    | inl g ↦ absurd (ground arith)
    | inr (j, g) ↦ elim (Bool-cases (has_outcome j)) [
      | inl o ↦ absurd (ground arith)
      | inr o ↦ absurd (ground arith)
    ]
  ]

  k_lt : (k deadline : ℕ) → ends deadline ≡ true → look k ≡ none → k ≢ deadline
  k_lt k deadline h e same = deadline_looks k (subst (λ n. ends n ≡ true) (sym same) h) e

  wait_from :
      (fuel k deadline : ℕ)
      → ends deadline ≡ true
      → k ≤ deadline
      → deadline < k + fuel
      → Returns k deadline (wait_job fuel k)
  unfolding wait_job
  wait_from zero k deadline h le lt = absurd (omega (arith, le, lt))
  wait_from (suc fuel) k deadline h le lt = elim (Option-cases (look k)) [
    | inr (e, is_e) ↦ rw is_e (record {
      at = k;
      after = omega arith;
      before = le;
      returned = is_e;
      went_on = λ i from to. absurd (omega (arith, from, to));
    })
    | inl on ↦
        let apart = k_lt k deadline h on in
        let r = wait_from fuel (suc k) deadline h (omega (arith, le, apart)) (omega (arith, lt)) in
        rw on (record {
          at = r.at;
          after = omega (arith, r.after);
          before = r.before;
          returned = r.returned;
          went_on = λ i from to. elim (dec_lt k i) [
            | yes p ↦ r.went_on i (omega (arith, p)) to
            | no p ↦ subst (λ n. look n ≡ none) (omega (arith, from, p)) on
          ];
        })
  ]

-- A job with an outcome has SUCCEEDED or FAILED.
abbrev pub IsOver : Job → Type 0
IsOver j = (j.status ≡ JobStatus.succeeded) ⊎ (j.status ≡ JobStatus.failed)

-- The store has the job without an outcome at a look, and the context has not ended.
pub record IsPending (id : String) (seen : ℕ → JobStore) (ends : ℕ → Bool) (k : ℕ) : Type 0 where
  pub job : Job
  pub held : lookup id (seen k) ≡ some job
  pub goes_on : ¬ IsOver job
  pub runs : ends k ≡ false

-- What a wait that ends at a look has seen there.
abbrev pub IsSeen : String → (ℕ → JobStore) → (ℕ → Bool) → ℕ → WaitEnd → Type 0
IsSeen id seen ends k missing = lookup id (seen k) ≡ none
IsSeen id seen ends k (finished j) = (lookup id (seen k) ≡ some j) × IsOver j
IsSeen id seen ends k (cancelled j) = (lookup id (seen k) ≡ some j) × (¬ IsOver j) × (ends k ≡ true)
IsSeen id seen ends k exhausted = ⊥

some_injective : (a b : WaitEnd) → ◌≡◌ {A = Option WaitEnd} (some a) (some b) → a ≡ b
some_injective a b e = cc

has_outcome-IsOver : (j : Job) → has_outcome j ≡ true → IsOver j
has_outcome-IsOver j o = go j.status o
  where
    go :
        (t : JobStatus)
        → (is_succeeded t || is_failed t) ≡ true
        → (t ≡ JobStatus.succeeded) ⊎ (t ≡ JobStatus.failed)
    go JobStatus.succeeded h = inl refl
    go JobStatus.failed h = inr refl
    go JobStatus.queued h = cc
    go JobStatus.pending h = cc
    go JobStatus.running h = cc
    go (JobStatus.other t) h = cc

unsettled : (j : Job) → has_outcome j ≡ false → ¬ IsOver j
unsettled j o (inl e) = let n : is_succeeded j.status ≡ true = ap is_succeeded e in ground arith
unsettled j o (inr e) = let n : is_failed j.status ≡ true = ap is_failed e in ground arith

module _ (id : String) (seen : ℕ → JobStore) (ends : ℕ → Bool) where
  look_seen : (k : ℕ) (e : WaitEnd) → look id seen ends k ≡ some e → IsSeen id seen ends k e
  unfolding look
  look_seen k e h = elim (Option-cases (lookup id (seen k))) [
    | inl g ↦ subst (IsSeen id seen ends k) (some_injective missing e (ground arith)) g
    | inr (j, g) ↦ elim (Bool-cases (has_outcome j)) [
      | inl o ↦
          subst (IsSeen id seen ends k) (some_injective (finished j) e (ground arith))
            (g, has_outcome-IsOver j o)
      | inr o ↦ elim (Bool-cases (ends k)) [
        | inl t ↦
            subst (IsSeen id seen ends k) (some_injective (cancelled j) e (ground arith))
              (g, unsettled j o, t)
        | inr t ↦ absurd (ground arith)
      ]
    ]
  ]

  look-IsPending : (k : ℕ) → look id seen ends k ≡ none → IsPending id seen ends k
  unfolding look
  look-IsPending k h = elim (Option-cases (lookup id (seen k))) [
    | inl g ↦ absurd (ground arith)
    | inr (j, g) ↦ elim (Bool-cases (has_outcome j)) [
      | inl o ↦ absurd (ground arith)
      | inr o ↦ record { job = j; held = g; goes_on = unsettled j o; runs = ground arith }
    ]
  ]

-- If the context ends at some look and there is fuel for the looks up to it, the wait returns at that
-- look at the latest. At each earlier look the store had the job, neither SUCCEEDED nor FAILED, and the
-- context went on. At the look that ends the wait, the answer is the job as the store had it if that
-- was over, a cancellation with the job if it was not and the context had ended, or, if there was no
-- job, that it is missing.
pub wait_job_lem :
    (id : String) (seen : ℕ → JobStore) (ends : ℕ → Bool) (fuel deadline : ℕ)
    → ends deadline ≡ true
    → deadline < fuel
    → (at : ℕ) × (at ≤ deadline)
      × IsSeen id seen ends at (wait_job id seen ends fuel 0)
      × ((i : ℕ) → i < at → IsPending id seen ends i)
wait_job_lem id seen ends fuel deadline h lt =
    let r = wait_from id seen ends fuel 0 deadline h (omega arith) (omega (arith, lt)) in
    (
      r.at,
      r.before,
      look_seen id seen ends r.at (wait_job id seen ends fuel 0) r.returned,
      λ i to. look-IsPending id seen ends i (r.went_on i (omega arith) to),
    )
