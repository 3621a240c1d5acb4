-- ===== src/Nodes/Draining.antt =====
-- The status of a draining row under the operations of internal/server/store.go.
use houdry.Prelude.{
  ℕ, String, ◌≡◌, refl, inl, inr, Option, none, some, arith, subst, sym, Option-cases,
  if◌then◌else◌, str_eq, eq_iff,
}
use houdry.Prelude.Maps.{get, put, get-put}
use houdry.Nodes.Status.{NodeStatus, is_offline}
use houdry.Nodes.Registry.{nodes-save}
use houdry.Nodes.{
  Node, Store, node_id, lookup, modify, beat, heartbeat, set_status, with_status, set_drain,
  drained,
}

abbrev pub map_row : (Node → Node) → Option Node → Option Node
map_row f none = none
map_row f (some n) = some (f n)

-- What an operation on one row leaves under any id.
pub lookup-modify :
    (f : Node → Node) (id k : String) (s : Store)
    → lookup k (modify f id s).0 ≡ (if str_eq id k then map_row f (lookup k s) else lookup k s)
unfolding modify
lookup-modify f id k s = elim (Option-cases (get id s.nodes)) [
  | inl e ↦ rw (e, modify) (ground (arith, eq_iff id k))
  | inr (n, e) ↦
      rw (e, modify, nodes-save (record s { nodes = put id (f n) s.nodes }))
        (ground (arith, get-put id k (f n) s.nodes, eq_iff id k))
]

-- The answer is the row as it was written.
pub answer-modify :
    (f : Node → Node) (id : String) (s : Store) → (modify f id s).1 ≡ map_row f (lookup id s)
unfolding modify
answer-modify f id s = ground arith

beat_status :
    (now : ℕ) (report n : Node)
    → n.status ≡ NodeStatus.draining
    → (beat now report n).status
      ≡ (if is_offline report.status then NodeStatus.offline else NodeStatus.draining)
unfolding beat
beat_status now report n d = ground arith

module _ (now : ℕ) (id : String) (s : Store) (n : Node) (row : lookup id s ≡ some n) where
  row_after : (f : Node → Node) → lookup id (modify f id s).0 ≡ some (f n)
  row_after f = ground (arith, lookup-modify f id id s, eq_iff id id)

  -- While a row is draining, a heartbeat leaves it draining whatever status the agent reports, but
  -- for OFFLINE, which takes it offline; finishing a job (a switch to READY) leaves it draining; and
  -- so does another request to drain, which keeps no current job.
  pub draining_kept :
      (report : Node) (job_id : String)
      → node_id report ≡ id
      → n.status ≡ NodeStatus.draining
      → ((m : Node) × (lookup id (heartbeat now report s).0 ≡ some m)
          × (m.status
              ≡ (if is_offline report.status then NodeStatus.offline else NodeStatus.draining)))
        × ((m : Node) × (lookup id (set_status now id NodeStatus.ready job_id s).0 ≡ some m)
            × (m.status ≡ NodeStatus.draining))
        × ((m : Node) × (lookup id (set_drain now id s).0 ≡ some m)
            × (m.status ≡ NodeStatus.draining)
            × (m.current_job_id ≡ ""))
  unfolding heartbeat set_status set_drain
  draining_kept report job_id key d = (
    (
      beat now report n,
      subst (λ k. lookup id (modify (beat now report) k s).0 ≡ some (beat now report n)) (sym key)
          (row_after (beat now report)),
      beat_status now report n d,
    ),
    (
      with_status now NodeStatus.ready job_id n,
      row_after (with_status now NodeStatus.ready job_id),
      ground arith,
    ),
    (drained now n, row_after (drained now), refl, ground arith),
  )
