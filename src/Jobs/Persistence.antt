-- ===== src/Jobs/Persistence.antt =====
-- saveLocked and NewJobStore of internal/server/jobs.go.
use mathlib.Core.List.{append-nil, append_assoc}
use houdry.Prelude.{
  String, Bool, true, false, ◌≡◌, ◌∙◌, refl, sym, ap, inl, inr, List, [], ◌∷◌, ◌++◌, none, some,
  arith, Bool-cases, str_eq, eq_iff, All,
}
use houdry.Prelude.Maps.{Map, get, put, values, get-put}
use houdry.Prelude.Keyed.{IsKeyed}
use houdry.Jobs.{Job, JobStore, save, open_jobs, load_jobs, loaded_job}
use houdry.Jobs.Store.{IsAssigned, IsJobStore, job_id}
use houdry.Jobs.Status.{is_pending}

-- Jobs with an id. (newJobID never draws the empty text.)
abbrev pub IsNamed : Job → Type 0
IsNamed j = str_eq j.id "" ≡ false

loaded_assigned : (j : Job) → IsAssigned j → loaded_job j ≡ j
unfolding loaded_job
loaded_assigned j a = elim (Bool-cases (is_pending j.status)) [
  | inl e ↦ ground (arith, a.placed)
  | inr e ↦ ground arith
]

-- The entries of a map whose keys a second map does not have, put in order at its end.
put_end : (k : String) (j : Job) (m : Map Job) → get k m ≡ none → put k j m ≡ m ++ (k, j) ∷ []
unfolding get put
put_end k j [] h = refl
put_end k j ((i, w) ∷ m) h = ground (arith, put_end k j m)

-- No key of the first map is one of the second's.
abbrev Apart : Map Job → Map Job → Type 0
Apart [] acc = Unit
Apart ((k, j) ∷ m) acc = (get k acc ≡ none) × Apart m acc

Apart-put :
    (k : String) (j : Job) (m acc : Map Job) → get k m ≡ none → Apart m acc → Apart m (put k j acc)
unfolding get
Apart-put k j [] acc h a = tt
Apart-put k j ((i, w) ∷ m) acc h a = (
  ground (arith, get-put k i j acc, eq_iff k i, eq_iff i k, a.0),
  Apart-put k j m acc (ground arith) a.1,
)

load_step :
    (i : String) (j : Job) (js : List Job) (acc : Map Job)
    → job_id j ≡ i
    → IsNamed j
    → IsAssigned j
    → load_jobs (j ∷ js) acc ≡ load_jobs js (put i j acc)
unfolding load_jobs
load_step i j js acc k n a = rw (n, loaded_assigned j a) (ap (λ x. load_jobs js (put x j acc)) k)

load_append :
    (m acc : Map Job)
    → IsKeyed job_id m
    → All IsNamed (values m)
    → All IsAssigned (values m)
    → Apart m acc
    → load_jobs (values m) acc ≡ acc ++ m
unfolding load_jobs values
load_append [] acc k n a p = sym (append-nil acc)
load_append ((i, j) ∷ m) acc k n a p =
    load_step i j (values m) acc k.0 n.0 a.0
    ∙ (load_append m (put i j acc) k.2 n.1 a.1 (Apart-put i j m acc k.1 p.1)
        ∙ (rw (put_end i j acc p.0) (append_assoc acc ((i, j) ∷ []) m)))

Apart-nil : (m : Map Job) → Apart m []
unfolding get
Apart-nil [] = tt
Apart-nil ((k, j) ∷ m) = (refl, Apart-nil m)

disk-save : (js : JobStore) → js.writable ≡ true → (save js).disk ≡ some (values js.jobs)
unfolding save
disk-save js w = ground arith

-- A store of the right shape that is saved while the disk is writable is read back as it was, job by
-- job and in the same order, if each job has an id.
pub open-save :
    (js : JobStore) (writable : Bool)
    → IsJobStore js
    → All IsNamed (values js.jobs)
    → js.writable ≡ true
    → (open_jobs writable (save js).disk).jobs ≡ js.jobs
unfolding open_jobs
open-save js writable h n w =
    rw (disk-save js w, open_jobs) (load_append js.jobs [] h.keyed n h.assigned (Apart-nil js.jobs))
