-- ===== src/Jobs/Board.antt =====
-- The job store of internal/server/jobs.go as a board: what stands under each id, with no regard to
-- the order of the entries, the loops and the file.
use mathlib.Core.Path.{fun_ext}
use houdry.Prelude.{
  ℕ, ◌≤◌, String, Bool, true, ◌≡◌, refl, sym, ap, ◌∙◌, subst, inl, inr, Option, none, some, arith,
  Bool-cases, if◌then◌else◌, str_eq, eq_iff, All-of_In,
}
use houdry.Prelude.Maps.{Map, values}
use houdry.Prelude.Keyed.{In-of_get}
use houdry.Jobs.Status.{JobStatus, is_queued}
use houdry.Jobs.Claiming.{Claims, nothing, taken, claim-Claims}
use houdry.Jobs.Lifecycle.{Step, creates, assigns, claims, completes, fails}
use houdry.Jobs.Store.{
  IsJobStore, lookup-put-save, lookup-assign, lookup-complete, lookup-fail_in_flight, create-ok,
}
use houdry.Jobs.{
  Job, JobStore, Json, lookup, new_job, started, is_claimable, claim, assign, complete, completed,
  fail_one,
}
use houdry.Resources.{Requirements}

abbrev pub Board : Type 0
Board = String → Option Job

abbrev pub board : JobStore → Board
board js id = lookup id js

abbrev pub write : String → Job → Board → Board
write id j b k = if str_eq id k then some j else b k

-- What may happen to a board.
pub data Move (b : Board) : Board → Type 0 where
  rest : Move b b
  post :
      (now : ℕ) (id job_type preferred : String) (r : Requirements) (payload : Map Json)
      → b id ≡ none
      → Move b (write id (new_job now id job_type preferred r payload) b)
  give :
      (id node : String) (j : Job)
      → b id ≡ some j
      → is_queued j.status ≡ true
      → Move b (write id (record j { status = JobStatus.pending; node_id = node }) b)
  start :
      (now : ℕ) (node : String) (j : Job)
      → b j.id ≡ some j
      → is_claimable node j ≡ true
      → ((id : String) (k : Job)
          → b id ≡ some k
          → is_claimable node k ≡ true
          → j.created_at ≤ k.created_at)
      → Move b (write j.id (started now j) b)
  finish :
      (now : ℕ) (id : String) (good : Bool) (result : Map Json) (message : String) (j : Job)
      → b id ≡ some j
      → Move b (write id (completed now good result message j) b)
  lose :
      (now : ℕ) (node keep message : String) (pending : Bool)
      → Move b (λ id. elim (b id) [
        | none ↦ none
        | some j ↦ some (fail_one now node keep message pending j)
      ])

-- A move may be read off a board that is equal under each id.
as_board : {b c d : Board} → Move b c → ((id : String) → d id ≡ c id) → Move b d
as_board {b} m same = subst (Move b) (sym (fun_ext same)) m

Move-claims :
    (now : ℕ) (node : String) (js : JobStore) (r : JobStore × Option Job)
    → IsJobStore js
    → Claims now node js r
    → Move (board js) (board r.0)
Move-claims now node js r h (nothing _) = rest
Move-claims now node js r h (taken j here can old) =
    as_board
      (start now node j here can (λ id k row free.
        All-of_In (λ k. is_claimable node k ≡ true → j.created_at ≤ k.created_at) k (values js.jobs)
          old (In-of_get id k js.jobs row) free))
      (λ id. lookup-put-save j.id id (started now j) js)

Move-assigns :
    (id node : String) (js : JobStore) (o : Option Job)
    → lookup id js ≡ o
    → Move (board js) (board (assign id node js).0)
Move-assigns id node js none row =
    as_board rest (λ k. lookup-assign id node k js ∙ ground (arith, eq_iff id k, row))
Move-assigns id node js (some j) row = elim (Bool-cases (is_queued j.status)) [
  | inl q ↦
      as_board (give id node j row q)
        (λ k. lookup-assign id node k js ∙ ground (arith, eq_iff id k, row))
  | inr q ↦ as_board rest (λ k. lookup-assign id node k js ∙ ground (arith, eq_iff id k, row))
]

Move-completes :
    (now : ℕ) (id : String) (good : Bool) (result : Map Json) (message : String) (js : JobStore)
    (o : Option Job)
    → lookup id js ≡ o
    → Move (board js) (board (complete now id good result message js).0)
Move-completes now id good result message js none row =
    as_board rest
      (λ k. lookup-complete now id good result message k js ∙ ground (arith, eq_iff id k, row))
Move-completes now id good result message js (some j) row =
    as_board (finish now id good result message j row)
      (λ k. lookup-complete now id good result message k js ∙ ground (arith, eq_iff id k, row))

-- Every operation of the job store is a move of the board: its loops over the map, the order of the
-- entries and the writing of the file show nowhere but in the jobs that stand under the ids. Claiming
-- starts a job such that no job that the node may claim is older.
pub Step-Move : {js t : JobStore} → Step js t → IsJobStore js → Move (board js) (board t)
Step-Move {js} (creates now id job_type preferred r payload j {t} fresh made) h =
    let (p, is_j, is_t) = create-ok now id job_type preferred r payload js t j made in
    as_board (post now id job_type preferred p payload fresh) (λ k.
      ap (lookup k) is_t ∙ lookup-put-save id k (new_job now id job_type preferred p payload) js)
Step-Move {js} (assigns id node named) h = Move-assigns id node js (lookup id js) refl
Step-Move {js} (claims now node) h =
    Move-claims now node js (claim now node js) h (claim-Claims now node js h)
Step-Move {js} (completes now id good result message) h =
    Move-completes now id good result message js (lookup id js) refl
Step-Move {js} (fails now node keep message pending) h =
    as_board (lose now node keep message pending)
      (λ k. lookup-fail_in_flight now node keep message pending k js)
