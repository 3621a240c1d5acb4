-- ===== src/Scheduler.antt =====
-- internal/server/scheduler.go: queued jobs are given to nodes that fit them.
pub mod Selection
pub mod Assignment
pub mod Order
use houdry.Prelude.{
  ℕ, String, Bool, true, false, not, ◌&&◌, ◌||◌, List, [], ◌∷◌, str_eq, str_lt, ltb, ◌==◌,
  if◌then◌else◌, is_empty,
}
use houdry.Nodes.{Node, node_id}
use houdry.Jobs.{Job, JobStore, assign, list_by_status}
use houdry.Jobs.Status.{JobStatus}
use houdry.Fitting.{fits, model_score}

-- A node that the loop of selectNode considers: not passed over for the job's preferred or assigned
-- node, and it fits.
unfoldable pub is_candidate : Job → Node → Bool
is_candidate j n =
    not (not (str_eq j.preferred_node_id "") && not (str_eq (node_id n) j.preferred_node_id))
    && not (not (str_eq j.node_id "") && not (str_eq (node_id n) j.node_id))
    && fits n j.requirements

-- The two variables of the loop. The score is read only while an id is set, so its first value, -1
-- in the code, is never compared.
pub record Choice : Type 0 where
  pub best : String
  pub score : ℕ

consider : Job → Node → Choice → Choice
consider j n c =
    let score = model_score n j.requirements in
    if str_eq c.best "" || ltb c.score score || (score == c.score && str_lt (node_id n) c.best)
    then record { best = node_id n; score = score }
    else c

choose : Job → Choice → List Node → Choice
unfolding is_candidate consider
choose j c [] = c
choose j c (n ∷ ns) = choose j (if is_candidate j n then consider j n c else c) ns

-- selectNode
unfoldable pub select_node : List Node → Job → String
unfolding choose
select_node nodes j = (choose j (record { best = ""; score = 0 }) nodes).best

-- One round of the loop of tryScheduleQueued.
unfoldable pub schedule_one : List Node → Job → JobStore → JobStore
unfolding select_node
schedule_one nodes j js =
    if str_eq (select_node nodes j) "" then js else (assign j.id (select_node nodes j) js).0

unfoldable pub schedule_all : List Node → List Job → JobStore → JobStore
unfolding schedule_one
schedule_all nodes [] js = js
schedule_all nodes (j ∷ queued) js = schedule_all nodes queued (schedule_one nodes j js)

-- tryScheduleQueued, with the nodes that the registry lists.
unfoldable pub try_schedule_queued : List Node → JobStore → JobStore
unfolding schedule_all
try_schedule_queued nodes js = schedule_all nodes (list_by_status JobStatus.queued js) js
