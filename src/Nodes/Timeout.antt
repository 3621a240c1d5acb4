-- ===== src/Nodes/Timeout.antt =====
-- MarkStaleOffline of internal/server/store.go.
use houdry.Prelude.{
  ℕ, ◌-◌, ◌<◌, String, true, false, ◌≡◌, ◌≢◌, refl, inl, inr, ◌↔◌, [], ◌∷◌, some, arith, All, In,
  Bool-cases, str_eq, eq_iff, is_empty,
}
use houdry.Prelude.Maps.{Map, get, values, map_values, get-map_values}
use houdry.Nodes.Status.{NodeStatus, is_offline}
use houdry.Nodes.Registry.{nodes-save}
use houdry.Nodes.Draining.{map_row}
use houdry.Nodes.{Node, Store, lookup, is_stale, expire, stale_keys, mark_stale_offline, list}

nodes-mark :
    (now : ℕ) (s : Store)
    → (mark_stale_offline now s).0.nodes ≡ map_values (expire now s.offline) s.nodes
unfolding mark_stale_offline
nodes-mark now s = elim (Bool-cases (is_empty (stale_keys now s.offline s.nodes))) [
  | inl e ↦ rw e refl
  | inr e ↦ rw e (nodes-save (record s { nodes = map_values (expire now s.offline) s.nodes }))
]

-- The sweep rewrites each row by itself and neither adds nor removes one.
pub lookup-mark_stale_offline :
    (now : ℕ) (s : Store) (id : String)
    → lookup id (mark_stale_offline now s).0 ≡ map_row (expire now s.offline) (lookup id s)
lookup-mark_stale_offline now s id =
    rw (nodes-mark now s) (ground (arith, get-map_values (expire now s.offline) id s.nodes))

expired_not-stale :
    (now offline : ℕ) (n : Node) → is_stale now offline (expire now offline n) ≡ false
unfolding is_stale expire
expired_not-stale now offline n = ground arith

none_stale :
    (now offline : ℕ) (m : Map Node)
    → All (λ n. is_stale now offline n ≡ false) (values (map_values (expire now offline) m))
unfolding values map_values
none_stale now offline [] = tt
none_stale now offline ((id, n) ∷ m) = (expired_not-stale now offline n, none_stale now offline m)

-- After the sweep no row is stale: each agent that is not offline was seen within the timeout.
pub sweep_complete :
    (now : ℕ) (s : Store)
    → All (λ n. is_stale now s.offline n ≡ false) (list (mark_stale_offline now s).0)
sweep_complete now s = rw (nodes-mark now s) (none_stale now s.offline s.nodes)

-- A row is stale exactly if it is an agent's, is not offline, and its last heartbeat lies further
-- back than the timeout.
pub is_stale_iff :
    (now offline : ℕ) (n : Node)
    → (is_stale now offline n ≡ true)
      ↔ ((n.agent_version ≢ "") × (is_offline n.status ≡ false) × (n.last_seen < now - offline))
unfolding is_stale
is_stale_iff now offline n = ground (arith, eq_iff n.agent_version "")

stale_keys-In :
    (now offline : ℕ) (id : String) (m : Map Node)
    → In id (stale_keys now offline m)
    → (n : Node) × In n (values m) × (is_stale now offline n ≡ true)
unfolding stale_keys values
stale_keys-In now offline id [] i = absurd i
stale_keys-In now offline id ((j, n) ∷ m) i = elim (Bool-cases (is_stale now offline n)) [
  | inl e ↦ (n, inl refl, e)
  | inr e ↦
      let (k, i', p) = stale_keys-In now offline id m (rw (e, stale_keys) at i) in (k, inr i', p)
]

stale_keys-cons :
    (now offline : ℕ) (id j : String) (k : Node) (m : Map Node)
    → (In id (stale_keys now offline m) → In id (stale_keys now offline ((j, k) ∷ m)))
      × (j ≡ id → is_stale now offline k ≡ true → In id (stale_keys now offline ((j, k) ∷ m)))
unfolding stale_keys
stale_keys-cons now offline id j k m = elim (Bool-cases (is_stale now offline k)) [
  | inl e ↦ rw e ((λ i. inr i, λ p _. inl p))
  | inr e ↦ rw e ((λ i. i, λ p q. cc))
]

stale_keys_complete :
    (now offline : ℕ) (id : String) (n : Node) (m : Map Node)
    → get id m ≡ some n
    → is_stale now offline n ≡ true
    → In id (stale_keys now offline m)
unfolding get
stale_keys_complete now offline id n [] e p = cc
stale_keys_complete now offline id n ((j, k) ∷ m) e p = elim (Bool-cases (str_eq j id)) [
  | inl t ↦
      let here : k ≡ n = ground arith in
      (stale_keys-cons now offline id j k m).1 ((eq_iff j id).0 t) (rw here p)
  | inr t ↦
      (stale_keys-cons now offline id j k m).0
        (stale_keys_complete now offline id n m (ground arith) p)
]

answer-mark :
    (now : ℕ) (s : Store) → (mark_stale_offline now s).1 ≡ stale_keys now s.offline s.nodes
unfolding mark_stale_offline
answer-mark now s = refl

-- The sweep answers the id of every stale row, and leaves that row offline without a current job.
pub sweep_answer :
    (now : ℕ) (s : Store) (id : String) (n : Node)
    → lookup id s ≡ some n
    → is_stale now s.offline n ≡ true
    → In id (mark_stale_offline now s).1
      × ((m : Node) × (lookup id (mark_stale_offline now s).0 ≡ some m)
          × (m.status ≡ NodeStatus.offline)
          × (m.current_job_id ≡ ""))
unfolding expire
sweep_answer now s id n e p = (
  rw (answer-mark now s) (stale_keys_complete now s.offline id n s.nodes e p),
  (
    expire now s.offline n,
    ground (arith, lookup-mark_stale_offline now s id),
    ground arith,
    ground arith,
  ),
)

-- What the sweep answers belongs to a stale row of the registry.
pub sweep_sound :
    (now : ℕ) (s : Store) (id : String)
    → In id (mark_stale_offline now s).1
    → (n : Node) × In n (list s) × (is_stale now s.offline n ≡ true)
sweep_sound now s id i = stale_keys-In now s.offline id s.nodes (rw (answer-mark now s) at i)
