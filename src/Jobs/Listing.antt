-- ===== src/Jobs/Listing.antt =====
-- List, ListByStatus and CountByStatus of internal/server/jobs.go.
use mathlib.Core.List.{Perm}
use mathlib.Core.List.Perm
use houdry.Prelude.{
  suc, ◌≤◌, Bool, true, ◌≡◌, refl, sym, ap, ◌∙◌, List, [], ◌∷◌, arith, Bool-cases, inl, inr, ltb,
  filter, length, All, All-weaken, In, subst,
}
use houdry.Prelude.Maps.{values}
use houdry.Jobs.Status.{JobStatus, same_status}
use houdry.Jobs.{Job, JobStore, insert_job, by_age, list_by_status, count_by_status}

-- Each job is no younger than the ones after it.
abbrev pub IsByAge : List Job → Type 0
IsByAge [] = Unit
IsByAge (j ∷ js) = All (λ k. j.created_at ≤ k.created_at) js × IsByAge js

All-insert : (P : Job → Type 0) (j : Job) (ks : List Job) → P j → All P ks → All P (insert_job j ks)
unfolding insert_job
All-insert P j [] p h = (p, tt)
All-insert P j (k ∷ ks) p h = elim (Bool-cases (ltb k.created_at j.created_at)) [
  | inl e ↦ rw e ((h.0, All-insert P j ks p h.1))
  | inr e ↦ rw e ((p, h))
]

insert-IsByAge : (j : Job) (ks : List Job) → IsByAge ks → IsByAge (insert_job j ks)
unfolding insert_job
insert-IsByAge j [] h = (tt, tt)
insert-IsByAge j (k ∷ ks) h = elim (Bool-cases (ltb k.created_at j.created_at)) [
  | inl e ↦ rw e (
      (
        All-insert (λ i. k.created_at ≤ i.created_at) j ks (ground arith) h.0,
        insert-IsByAge j ks h.1,
      ))
  | inr e ↦
      let le : j.created_at ≤ k.created_at = ground arith in
      rw e (
        (
          (
            le,
            All-weaken (λ i. k.created_at ≤ i.created_at) (λ i. j.created_at ≤ i.created_at) ks
                (λ i p. omega arith) h.0,
          ),
          h,
        ))
]

by_age-IsByAge : (js : List Job) → IsByAge (by_age js)
unfolding by_age
by_age-IsByAge [] = tt
by_age-IsByAge (j ∷ js) = insert-IsByAge j (by_age js) (by_age-IsByAge js)

insert-perm : (j : Job) (ks : List Job) → Perm (insert_job j ks) (j ∷ ks)
unfolding insert_job
insert-perm j [] = Perm.refl (j ∷ [])
insert-perm j (k ∷ ks) = elim (Bool-cases (ltb k.created_at j.created_at)) [
  | inl e ↦ rw e (Perm.trans (Perm.cons k (insert-perm j ks)) (Perm.swap j k ks))
  | inr e ↦ rw e (Perm.refl (j ∷ k ∷ ks))
]

by_age-perm : (js : List Job) → Perm (by_age js) js
unfolding by_age
by_age-perm [] = Perm.refl []
by_age-perm (j ∷ js) = Perm.trans (insert-perm j (by_age js)) (Perm.cons j (by_age-perm js))

length-insert : (j : Job) (ks : List Job) → length (insert_job j ks) ≡ suc (length ks)
unfolding insert_job
length-insert j [] = refl
length-insert j (k ∷ ks) = ground (arith, length-insert j ks)

length-by_age : (js : List Job) → length (by_age js) ≡ length js
unfolding by_age
length-by_age [] = refl
length-by_age (j ∷ js) = length-insert j (by_age js) ∙ ap suc (length-by_age js)

-- The listing by status holds exactly the store's jobs of that status, as often as they stand
-- there, oldest first; and the count is its length.
pub list_by_status_lem :
    (status : JobStatus) (js : JobStore)
    → Perm (list_by_status status js) (filter (λ j. same_status j.status status) (values js.jobs))
      × IsByAge (list_by_status status js)
      × (count_by_status status js ≡ length (list_by_status status js))
unfolding list_by_status count_by_status
list_by_status_lem status js =
    let jobs = filter (λ j. same_status j.status status) (values js.jobs) in
    (by_age-perm jobs, by_age-IsByAge jobs, sym (length-by_age jobs))

All-by_age : (P : Job → Type 0) (js : List Job) → All P js → All P (by_age js)
unfolding by_age
All-by_age P [] h = tt
All-by_age P (j ∷ js) h = All-insert P j (by_age js) h.0 (All-by_age P js h.1)

All-filter :
    (P : Job → Type 0) (p : Job → Bool) (js : List Job)
    → All P js
    → All (λ j. P j × (p j ≡ true)) (filter p js)
All-filter P p [] h = tt
All-filter P p (j ∷ js) h = elim (Bool-cases (p j)) [
  | inl e ↦ rw e (((h.0, e), All-filter P p js h.1))
  | inr e ↦ rw e (All-filter P p js h.1)
]

In-insert_self : (j : Job) (ks : List Job) → In j (insert_job j ks)
unfolding insert_job
In-insert_self j [] = inl refl
In-insert_self j (k ∷ ks) = elim (Bool-cases (ltb k.created_at j.created_at)) [
  | inl e ↦ rw e (inr (In-insert_self j ks))
  | inr e ↦ rw e (inl refl)
]

In-insert : (i j : Job) (ks : List Job) → In i ks → In i (insert_job j ks)
unfolding insert_job
In-insert i j [] h = absurd h
In-insert i j (k ∷ ks) h = elim (Bool-cases (ltb k.created_at j.created_at)) [
  | inl e ↦ rw e (elim h [ inl q ↦ inl q | inr r ↦ inr (In-insert i j ks r) ])
  | inr e ↦ rw e (inr h)
]

In-by_age : (i : Job) (js : List Job) → In i js → In i (by_age js)
unfolding by_age
In-by_age i [] h = absurd h
In-by_age i (j ∷ js) h = elim h [
  | inl e ↦ subst (λ k. In k (insert_job j (by_age js))) e (In-insert_self j (by_age js))
  | inr r ↦ In-insert i j (by_age js) (In-by_age i js r)
]

In-filter : (p : Job → Bool) (i : Job) (js : List Job) → p i ≡ true → In i js → In i (filter p js)
In-filter p i [] t h = absurd h
In-filter p i (j ∷ js) t h = elim h [
  | inl e ↦ rw (ap p e ∙ t) (inl e)
  | inr r ↦ elim (Bool-cases (p j)) [
    | inl e ↦ rw e (inr (In-filter p i js t r))
    | inr e ↦ rw e (In-filter p i js t r)
  ]
]

-- What holds of every job holds of the listed ones, and every job of the status is listed.
pub All-list_by_status :
    (P : Job → Type 0) (status : JobStatus) (js : JobStore)
    → All P (values js.jobs)
    → All (λ j. P j × (same_status j.status status ≡ true)) (list_by_status status js)
unfolding list_by_status
All-list_by_status P status js h =
    All-by_age _ _ (All-filter P (λ j. same_status j.status status) (values js.jobs) h)

pub In-list_by_status :
    (i : Job) (status : JobStatus) (js : JobStore)
    → same_status i.status status ≡ true
    → In i (values js.jobs)
    → In i (list_by_status status js)
unfolding list_by_status
In-list_by_status i status js t h =
    In-by_age i _ (In-filter (λ j. same_status j.status status) i (values js.jobs) t h)
