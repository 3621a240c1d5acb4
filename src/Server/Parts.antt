-- ===== src/Server/Parts.antt =====
-- The shape of the registry and the job store under the parts of the handlers of
-- internal/server/server.go.
use houdry.Prelude.{
  ℕ, String, Bool, true, false, ◌≡◌, refl, inl, inr, List, [], ◌∷◌, Option, none, some,
  Option-cases, Bool-cases, str_eq, if◌then◌else◌, arith,
}
use houdry.Prelude.Results.{Result, ok, err, Result-cases}
use houdry.Nodes.{Node, Store, list, lookup, node_id}
use houdry.Nodes as Nodes
use houdry.Nodes.Status.{NodeStatus, Identity, is_certified, is_ready, is_revoked}
use houdry.Nodes.Registry.{
  IsRegistry, Step-IsRegistry, upserts, beats, sets, drains, identifies, removes, sweeps,
}
use houdry.Jobs.{JobStore, Job, fail_running_except, fail_running_for_node, create, claim, complete}
use houdry.Jobs.Store.{IsJobStore}
use houdry.Jobs.Lifecycle.{claims, completes, fails}
use houdry.Jobs.Invariant.{Step-IsJobStore, Reach-IsJobStore, create-IsJobStore}
use houdry.Scheduler.Assignment.{try_schedule_queued-Reach}
use houdry.Server.Certificates.{Server, Response, Certificate, guarded, check_node_cert, check_row}
use houdry.Server.Agents.{
  Call, JoinRequest, admit, activate, answered, settle, take_beat, drain_row, leave_row, scheduled,
  joining, beating, is_working,
}
use houdry.Server.Work.{
  JobRequest, ResultRequest, sweep_once, queue_up, hand_out, claim_row, report, take_result,
  identify_row, denylisted, fail_for_all, freed, may_work,
}

pub record IsServer (s : Server) : Type 0 where
  pub rows : IsRegistry s.store
  pub queue : IsJobStore s.jobs

pub scheduled-IsServer : (s : Server) → IsServer s → IsServer (scheduled s)
unfolding scheduled
scheduled-IsServer s h = record {
  rows = h.rows;
  queue = Reach-IsJobStore h.queue (try_schedule_queued-Reach (list s.store) s.jobs);
}

pub check-IsServer :
    (suspended unknown : Bool) (peer : Option Certificate) (s : Server)
    → IsServer s
    → IsServer (check_node_cert suspended unknown peer s).0
unfolding check_node_cert check_row
check-IsServer suspended unknown none s h = h
check-IsServer suspended unknown (some c) s h = elim (Bool-cases c.signed) [
  | inr e ↦ rw e h
  | inl e ↦ elim (Bool-cases (str_eq c.common_name "")) [
    | inl f ↦ rw (e, f) h
    | inr f ↦ elim (Option-cases (lookup c.common_name s.store)) [
      | inl g ↦ rw (e, f, g) h
      | inr (n, g) ↦ elim (Bool-cases (is_revoked n.identity)) [
        | inl r ↦ rw (e, f, g) (rw r h)
        | inr r ↦ rw (e, f, g) (rw r (record { rows = h.rows; queue = h.queue }))
      ]
    ]
  ]
]

-- A guarded handler keeps what its two parts keep.
pub guarded-Keeps :
    (r : Server × Result Response String) (f : String → Server → Server × Response)
    → IsServer r.0
    → ((id : String) (s : Server) → IsServer s → IsServer (f id s).0)
    → IsServer (guarded r f).0
guarded-Keeps (s, err e) f h k = h
guarded-Keeps (s, ok id) f h k = k id s h

pub if-Keeps :
    (b : Bool) (x y : Server × Response)
    → IsServer x.0
    → IsServer y.0
    → IsServer (if b then x else y).0
if-Keeps true x y hx hy = hx
if-Keeps false x y hx hy = hy

pub fails-IsJobStore :
    (now : ℕ) (node keep message : String) (js : JobStore)
    → IsJobStore js
    → IsJobStore (fail_running_except now node keep message js).0
unfolding fail_running_except
fails-IsJobStore now node keep message js h = Step-IsJobStore (fails now node keep message false) h

pub loses-IsJobStore :
    (now : ℕ) (node message : String) (js : JobStore)
    → IsJobStore js
    → IsJobStore (fail_running_for_node now node message js).0
unfolding fail_running_for_node
loses-IsJobStore now node message js h = Step-IsJobStore (fails now node "" message true) h

pub admit-IsServer :
    (call : Call) (req : JoinRequest) (s : Server) → IsServer s → IsServer (admit call req s).0
unfolding admit
admit-IsServer call req s h = scheduled-IsServer _ (record {
  rows = Step-IsRegistry (upserts call.now (joining call req)) h.rows;
  queue = fails-IsJobStore call.now _ req.current_job_id "worker restarted" s.jobs h.queue;
})

pub answered-Keeps : (r : Store × Option Node) → IsRegistry r.0 → IsRegistry (answered r).0
unfolding answered
answered-Keeps (s, none) h = h
answered-Keeps (s, some n) h = h

pub activate-IsRegistry : (out : Node) (s : Store) → IsRegistry s → IsRegistry (activate out s).0
unfolding activate
activate-IsRegistry out s h = elim (Bool-cases (is_certified out.identity)) [
  | inl e ↦ rw e (
      answered-Keeps (Nodes.set_identity (node_id out) Identity.active s)
        (Step-IsRegistry (identifies (node_id out) Identity.active) h))
  | inr e ↦ rw e h
]

pub settle-IsServer :
    (call : Call) (req : JoinRequest) (found : Node) (store : Store) (s : Server)
    → IsRegistry store
    → IsServer s
    → IsServer (settle call req found store s).0
unfolding settle
settle-IsServer call req found store s hr h =
    elim (Bool-cases (is_ready (activate found store).1.status)) [
      | inl e ↦ rw e (scheduled-IsServer _ after)
      | inr e ↦ rw e after
    ]
  where
    after : IsServer (record s {
      store = (activate found store).0;
      jobs =
          (fail_running_except call.now
            (node_id (activate found store).1)
            req.current_job_id
            "worker is no longer running this job"
            s.jobs).0;
    })
    after = record {
      rows = activate-IsRegistry found store hr;
      queue =
          fails-IsJobStore call.now _ req.current_job_id "worker is no longer running this job"
            s.jobs h.queue;
    }

pub take_beat-IsServer :
    (call : Call) (req : JoinRequest) (s : Server) → IsServer s → IsServer (take_beat call req s).0
unfolding take_beat
take_beat-IsServer call req s h =
    let hr = Step-IsRegistry (beats call.now (beating call req)) h.rows in
    elim (Option-cases (Nodes.heartbeat call.now (beating call req) s.store).1) [
      | inl e ↦ rw (e, take_beat) (record { rows = hr; queue = h.queue })
      | inr (out, e) ↦ rw (e, take_beat) (settle-IsServer call req out _ s hr h)
    ]

pub drain_row-IsServer :
    (now : ℕ) (id : String) (s : Server) → IsServer s → IsServer (drain_row now id s).0
unfolding drain_row
drain_row-IsServer now id s h =
    let after : IsServer (record s { store = (Nodes.set_drain now id s.store).0 }) = record {
      rows = Step-IsRegistry (drains now id) h.rows;
      queue = h.queue;
    } in
    elim (Option-cases (Nodes.set_drain now id s.store).1) [
      | inl e ↦ rw (e, drain_row) after
      | inr (out, e) ↦ rw (e, drain_row) after
    ]

pub leave_row-IsServer :
    (now : ℕ) (id : String) (s : Server) → IsServer s → IsServer (leave_row now id s).0
unfolding leave_row
leave_row-IsServer now id s h = elim (Option-cases (lookup id s.store)) [
  | inl e ↦ rw (e, leave_row) h
  | inr (n, e) ↦ elim (Bool-cases (is_working n)) [
    | inl w ↦ rw (e, leave_row) (rw w h)
    | inr w ↦
        rw (e, leave_row)
          (rw w (record {
            rows =
                Step-IsRegistry (removes id)
                  (Step-IsRegistry (sets now id NodeStatus.offline "" refl) h.rows);
            queue = loses-IsJobStore now id "node left cluster" s.jobs h.queue;
          }))
  ]
]

pub queue_up-IsServer :
    (now : ℕ) (drawn job_type : String) (req : JobRequest) (s : Server)
    → IsServer s
    → IsServer (queue_up now drawn job_type req s).0
unfolding queue_up
queue_up-IsServer now drawn job_type req s h =
    elim (Result-cases
      (create now drawn job_type req.node_id req.requirements req.payload s.jobs)) [
        | inl (r, e) ↦ rw (e, queue_up) h
        | inr ((jobs, j), e) ↦
            rw (e, queue_up)
              (scheduled-IsServer _ (record {
                rows = h.rows;
                queue =
                    create-IsJobStore now drawn job_type req.node_id req.requirements req.payload
                      s.jobs jobs j e h.queue;
              }))
      ]

pub hand_out-IsServer :
    (now : ℕ) (id : String) (s : Server) → IsServer s → IsServer (hand_out now id s).0
unfolding hand_out
hand_out-IsServer now id s h =
    let hq = Step-IsJobStore (claims now id) h.queue in
    elim (Option-cases (claim now id s.jobs).1) [
      | inl e ↦ rw (e, hand_out) (record { rows = h.rows; queue = hq })
      | inr (j, e) ↦
          rw (e, hand_out)
            (record {
              rows = Step-IsRegistry (sets now id NodeStatus.busy j.id refl) h.rows;
              queue = hq;
            })
    ]

pub claim_row-IsServer :
    (now : ℕ) (id : String) (s : Server) → IsServer s → IsServer (claim_row now id s).0
unfolding claim_row
claim_row-IsServer now id s h = elim (Option-cases (lookup id s.store)) [
  | inl e ↦ rw (e, claim_row) h
  | inr (n, e) ↦ elim (Bool-cases (may_work n)) [
    | inl w ↦ rw (e, claim_row) (rw w (hand_out-IsServer now id s h))
    | inr w ↦ rw (e, claim_row) (rw w h)
  ]
]

pub take_result-IsServer :
    (now : ℕ) (certified : String) (req : ResultRequest) (j : Job) (s : Server)
    → IsServer s
    → IsServer (take_result now certified req j s).0
unfolding take_result
take_result-IsServer now certified req j s h = elim (Bool-cases (str_eq (freed req j) "")) [
  | inl e ↦ rw e (scheduled-IsServer s h)
  | inr e ↦ elim (Bool-cases (str_eq (freed req j) certified)) [
    | inl f ↦
        rw (e, f)
          (scheduled-IsServer _ (record {
            rows = Step-IsRegistry (sets now (freed req j) NodeStatus.ready "" refl) h.rows;
            queue = h.queue;
          }))
    | inr f ↦ rw (e, f) h
  ]
]

pub report-IsServer :
    (call : Call) (id : String) (req : ResultRequest) (certified : String) (s : Server)
    → IsServer s
    → IsServer (report call id req certified s).0
unfolding report
report-IsServer call id req certified s h =
    let hq = Step-IsJobStore (completes call.now id req.succeeded req.result req.error) h.queue in
    elim (Option-cases (complete call.now id req.succeeded req.result req.error s.jobs).1) [
      | inl e ↦ rw (e, report) (record { rows = h.rows; queue = hq })
      | inr (j, e) ↦
          rw (e, report)
            (take_result-IsServer call.now certified req j _ (record { rows = h.rows; queue = hq }))
    ]

pub jobs-denylisted :
    (identity : Identity) (id : String) (n : Node) (s : Server)
    → (denylisted identity id n s).jobs ≡ s.jobs
unfolding denylisted
jobs-denylisted identity id n s = ground arith

pub identify_row-IsServer :
    (identity : Identity) (id : String) (s : Server)
    → IsServer s
    → IsServer (identify_row identity id s).0
unfolding identify_row
identify_row-IsServer identity id s h = elim (Option-cases (lookup id s.store)) [
  | inl e ↦ rw (e, identify_row) h
  | inr (n, e) ↦
      rw (e, identify_row)
        (record {
          rows =
              answered-Keeps (Nodes.set_identity id identity s.store)
                (Step-IsRegistry (identifies id identity) h.rows);
          queue = rw (jobs-denylisted identity id n s) h.queue;
        })
]

pub fail_for_all-IsJobStore :
    (now : ℕ) (ids : List String) (js : JobStore)
    → IsJobStore js
    → IsJobStore (fail_for_all now ids js)
unfolding fail_for_all
fail_for_all-IsJobStore now [] js h = h
fail_for_all-IsJobStore now (id ∷ ids) js h =
    fail_for_all-IsJobStore now ids _ (loses-IsJobStore now id "node heartbeat timeout" js h)

pub sweep_once-IsServer : (now : ℕ) (s : Server) → IsServer s → IsServer (sweep_once now s)
unfolding sweep_once
sweep_once-IsServer now s h = scheduled-IsServer _ (record {
  rows = Step-IsRegistry (sweeps now) h.rows;
  queue = fail_for_all-IsJobStore now (Nodes.mark_stale_offline now s.store).1 s.jobs h.queue;
})
