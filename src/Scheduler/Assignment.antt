-- ===== src/Scheduler/Assignment.antt =====
-- tryScheduleQueued of internal/server/scheduler.go, job by job.
use houdry.Prelude.{
  String, Bool, true, false, ◌≡◌, refl, ◌∙◌, sym, ◌⊎◌, inl, inr, List, [], ◌∷◌, some, arith, str_eq,
  eq_iff, if◌then◌else◌, Bool-cases, All, All-of, All-weaken, In, ap,
}
use mathlib.Core.Bool.{false≢true}
use houdry.Prelude.Maps.{values}
use houdry.Prelude.Keyed.{key_of_get, In-of_get, get_of_In}
use houdry.Nodes.{Node}
use houdry.Jobs.{Job, JobStore, lookup, list_by_status}
use houdry.Jobs.Status.{JobStatus, is_queued, same_status}
use houdry.Jobs.Store.{IsJobStore, job_id, lookup-assign}
use houdry.Jobs.Listing.{All-list_by_status, In-list_by_status}
use houdry.Jobs.Lifecycle.{assigns}
use houdry.Jobs.Invariant.{Reach, here, next}
use houdry.Scheduler.{select_node, schedule_one, schedule_all, try_schedule_queued}

-- A pass is a sequence of assignments to named nodes.
schedule_one-Reach :
    (nodes : List Node) (j : Job) {js : JobStore} (t : JobStore)
    → Reach js t
    → Reach js (schedule_one nodes j t)
unfolding schedule_one
schedule_one-Reach nodes j t r = elim (Bool-cases (str_eq (select_node nodes j) "")) [
  | inl e ↦ rw e r
  | inr e ↦ rw e (next r (assigns j.id (select_node nodes j) e))
]

schedule_all-Reach :
    (nodes : List Node) (queued : List Job) {js : JobStore} (t : JobStore)
    → Reach js t
    → Reach js (schedule_all nodes queued t)
unfolding schedule_all
schedule_all-Reach nodes [] t r = r
schedule_all-Reach nodes (j ∷ queued) t r =
    schedule_all-Reach nodes queued (schedule_one nodes j t) (schedule_one-Reach nodes j t r)

pub try_schedule_queued-Reach :
    (nodes : List Node) (js : JobStore) → Reach js (try_schedule_queued nodes js)
unfolding try_schedule_queued
try_schedule_queued-Reach nodes js =
    schedule_all-Reach nodes (list_by_status JobStatus.queued js) js here

-- Assign's effect on a job that it is called for.
abbrev pended : String → Job → Job
pended node j =
    if is_queued j.status then record j { status = JobStatus.pending; node_id = node } else j

-- Where a pass leaves a job: pending on the node that selectNode picks for it, if it is queued and
-- some node is picked.
unfoldable pub placed : String → Job → Job
placed node j = if str_eq node "" then j else pended node j

placed_twice : (node : String) (j : Job) → placed node (placed node j) ≡ placed node j
unfolding placed
placed_twice node j = ground arith

lookup-schedule_one :
    (nodes : List Node) (id : String) (j k : Job) (t : JobStore)
    → lookup id t ≡ some k
    → lookup id (schedule_one nodes j t)
      ≡ some (if str_eq j.id id then placed (select_node nodes j) k else k)
unfolding schedule_one placed
lookup-schedule_one nodes id j k t h = elim (Bool-cases (str_eq (select_node nodes j) "")) [
  | inl e ↦ rw e (ground arith)
  | inr e ↦ rw e (ground (arith, lookup-assign j.id (select_node nodes j) id t))
]

module _ (nodes : List Node) (id : String) (o : Job) where
  abbrev after : Job
  after = placed (select_node nodes o) o

  hit : (j k : Job) → j ≡ o → (k ≡ o) ⊎ (k ≡ after) → placed (select_node nodes j) k ≡ after
  hit j k e (inl p) = cc
  hit j k e (inr p) = rw (e, p) (placed_twice (select_node nodes o) o)

  -- One turn of the loop.
  abbrev turned : Job → Job → Job
  turned j k = if str_eq j.id id then placed (select_node nodes j) k else k

  turned_lem :
      (j k : Job)
      → (str_eq j.id id ≡ true → j ≡ o)
      → (k ≡ o) ⊎ (k ≡ after)
      → ((turned j k ≡ o) ⊎ (turned j k ≡ after))
        × (((k ≡ after) ⊎ (j ≡ o)) → str_eq o.id id ≡ true → turned j k ≡ after)
  turned_lem j k same p = elim (Bool-cases (str_eq j.id id)) [
    | inl e ↦ rw e ((inr (hit j k (same e) p), λ _ _. hit j k (same e) p))
    | inr e ↦ rw e (
        (
          p,
          λ q t. elim q [
            | inl r ↦ r
            | inr r ↦ absurd (false≢true (sym e ∙ (ap (λ (x : Job). str_eq x.id id) r ∙ t)))
          ],
        ))
  ]

  -- The loop over jobs that are as they stood when the pass began.
  pass :
      (queued : List Job) (t : JobStore) (k : Job)
      → All (λ j. str_eq j.id id ≡ true → j ≡ o) queued
      → lookup id t ≡ some k
      → (k ≡ o) ⊎ (k ≡ after)
      → (l : Job) × (lookup id (schedule_all nodes queued t) ≡ some l)
        × ((l ≡ o) ⊎ (l ≡ after))
        × (((k ≡ after) ⊎ In o queued) → str_eq o.id id ≡ true → l ≡ after)
  unfolding schedule_all
  pass [] t k a h p = (k, h, p, λ q _. elim q [ inl e ↦ e | inr i ↦ absurd i ])
  pass (j ∷ queued) t k a h p =
      let (ends, done) = turned_lem j k a.0 p in
      let (l, at_l, which, all) =
        pass queued (schedule_one nodes j t) (turned j k) a.1 (lookup-schedule_one nodes id j k t h)
          ends in
      (
        l,
        at_l,
        which,
        λ q t. elim q [
          | inl e ↦ all (inl (done (inl e) t)) t
          | inr i ↦ elim i [ inl e ↦ all (inl (done (inr e) t)) t | inr i' ↦ all (inr i') t ]
        ],
      )

abbrev waiting : Job → Bool
waiting j = is_queued j.status

stays_put : (node : String) (j : Job) → is_queued j.status ≡ false → placed node j ≡ j
unfolding placed
stays_put node j h = ground arith

stored : (js : JobStore) → IsJobStore js → All (λ k. lookup k.id js ≡ some k) (values js.jobs)
stored js h =
    All-of (λ k. lookup k.id js ≡ some k) (values js.jobs)
      (λ k i. get_of_In job_id k js.jobs h.keyed i)

only_one :
    (js : JobStore) (id : String) (j k : Job)
    → lookup id js ≡ some j
    → lookup k.id js ≡ some k
    → str_eq k.id id ≡ true
    → k ≡ j
only_one js id j k row at e = ground (arith, eq_iff k.id id)

-- A scheduling pass moves each queued job for which selectNode picks a node to pending on that node,
-- and leaves every other job as it was.
pub try_schedule_queued_lem :
    (nodes : List Node) (js : JobStore) (id : String) (j : Job)
    → IsJobStore js
    → lookup id js ≡ some j
    → lookup id (try_schedule_queued nodes js) ≡ some (placed (select_node nodes j) j)
unfolding try_schedule_queued
try_schedule_queued_lem nodes js id j h row =
    let key = key_of_get job_id id j js.jobs h.keyed row in
    let as_stored =
      All-list_by_status (λ k. lookup k.id js ≡ some k) JobStatus.queued js (stored js h) in
    let (l, at_l, which, done) =
      pass nodes id j (list_by_status JobStatus.queued js) js j
        (All-weaken
          (λ k. (lookup k.id js ≡ some k) × (same_status k.status JobStatus.queued ≡ true))
          (λ k. str_eq k.id id ≡ true → k ≡ j) (list_by_status JobStatus.queued js)
          (λ k p e. only_one js id j k row p.0 e) as_stored)
        row (inl refl) in
    elim (Bool-cases (is_queued j.status)) [
      | inl q ↦
          at_l
          ∙ ap some (
              done (inr (In-list_by_status j JobStatus.queued js q (In-of_get id j js.jobs row)))
                ((eq_iff j.id id).1 key))
      | inr q ↦
          at_l
          ∙ ap some
              (elim which [ inl e ↦ e ∙ sym (stays_put (select_node nodes j) j q) | inr e ↦ e ])
    ]
