-- ===== src/Scheduler/Order.antt =====
-- tryScheduleQueued and selectNode of internal/server/scheduler.go under another order of the nodes and
-- of the jobs: both are kept in Go maps, whose loops have no fixed order.
use mathlib.Core.Bool.{false≢true}
use houdry.Prelude.{
  String, true, false, ◌≡◌, sym, ◌∙◌, ap, inl, inr, List, [], ◌∷◌, none, some, arith, str_eq,
  Option-cases, Bool-cases, All, All-of_In, In,
}
use houdry.Prelude.TextOrder.{str_lt_total}
use houdry.Nodes.{Node, node_id}
use houdry.Jobs.{Job, JobStore, lookup, list_by_status}
use houdry.Jobs.Status.{JobStatus}
use houdry.Jobs.Store.{IsJobStore, lookup-assign}
use houdry.Scheduler.{select_node, schedule_one, schedule_all, try_schedule_queued, is_candidate}
use houdry.Scheduler.Selection.{outranks, IsNamed, select_node_lem}
use houdry.Scheduler.Assignment.{placed, try_schedule_queued_lem}

-- The lists hold the same entries, in whatever order.
pub record IsSame (xs ys : List Node) : Type 0 where
  pub forth : (n : Node) → In n xs → In n ys
  pub back : (n : Node) → In n ys → In n xs

-- Two nodes that do not outrank each other have one id.
tied :
    (j : Job) (n m : Node) → outranks j n m ≡ false → outranks j m n ≡ false → node_id n ≡ node_id m
unfolding outranks
tied j n m p q = str_lt_total (node_id n) (node_id m) (ground arith) (ground arith)

select_node-same :
    (j : Job) (xs ys : List Node)
    → All IsNamed xs
    → All IsNamed ys
    → IsSame xs ys
    → select_node xs j ≡ select_node ys j
select_node-same j xs ys p q same = elim (select_node_lem j xs p) [
  | inl (e, skipped) ↦ elim (select_node_lem j ys q) [
    | inl (f, _) ↦ e ∙ sym f
    | inr (m, f, _, i, fits, _) ↦ absurd (
        false≢true
          (sym (All-of_In (λ n. is_candidate j n ≡ false) m xs skipped (same.back m i)) ∙ fits))
  ]
  | inr (n, e, _, i, fits, top) ↦ elim (select_node_lem j ys q) [
    | inl (f, skipped) ↦ absurd (
        false≢true
          (sym (All-of_In (λ m. is_candidate j m ≡ false) n ys skipped (same.forth n i)) ∙ fits))
    | inr (m, f, _, k, suits, best) ↦
        e
        ∙ tied j n m
            (All-of_In (λ x. is_candidate j x ≡ true → outranks j x m ≡ false) n ys best
              (same.forth n i) fits)
            (All-of_In (λ x. is_candidate j x ≡ true → outranks j x n ≡ false) m xs top
              (same.back m k) suits)
        ∙ sym f
  ]
]

none-schedule_one :
    (nodes : List Node) (id : String) (j : Job) (js : JobStore)
    → lookup id js ≡ none
    → lookup id (schedule_one nodes j js) ≡ none
unfolding schedule_one
none-schedule_one nodes id j js h = elim (Bool-cases (str_eq (select_node nodes j) "")) [
  | inl e ↦ rw e h
  | inr e ↦ rw e (ground (arith, lookup-assign j.id (select_node nodes j) id js))
]

none-schedule_all :
    (nodes : List Node) (queued : List Job) (id : String) (js : JobStore)
    → lookup id js ≡ none
    → lookup id (schedule_all nodes queued js) ≡ none
unfolding schedule_all
none-schedule_all nodes [] id js h = h
none-schedule_all nodes (j ∷ queued) id js h =
    none-schedule_all nodes queued id (schedule_one nodes j js) (none-schedule_one nodes id j js h)

pass_none :
    (nodes : List Node) (id : String) (js : JobStore)
    → lookup id js ≡ none
    → lookup id (try_schedule_queued nodes js) ≡ none
unfolding try_schedule_queued
pass_none nodes id js h = none-schedule_all nodes (list_by_status JobStatus.queued js) id js h

-- A scheduling pass does not depend on the order in which the nodes or the jobs are met: over the
-- same nodes, all with ids, and job stores with the same job under each id, it leaves the same job
-- under each id.
pub schedule-same :
    (xs ys : List Node) (js ks : JobStore)
    → All IsNamed xs
    → All IsNamed ys
    → IsSame xs ys
    → IsJobStore js
    → IsJobStore ks
    → ((id : String) → lookup id js ≡ lookup id ks)
    → (id : String) → lookup id (try_schedule_queued xs js) ≡ lookup id (try_schedule_queued ys ks)
schedule-same xs ys js ks p q same vj vk jobs id = elim (Option-cases (lookup id js)) [
  | inl e ↦ pass_none xs id js e ∙ sym (pass_none ys id ks (sym (jobs id) ∙ e))
  | inr (j, e) ↦
      try_schedule_queued_lem xs js id j vj e
      ∙ ap (λ node. some (placed node j)) (select_node-same j xs ys p q same)
      ∙ sym (try_schedule_queued_lem ys ks id j vk (sym (jobs id) ∙ e))
]
