-- ===== src/Nodes/Registry.antt =====
-- Histories of operations on the registry of internal/server/store.go, and its shape.
use houdry.Prelude.{
  ℕ, String, Bool, false, ◌≡◌, refl, List, [], ◌∷◌, Option, none, some, arith, All, All-of_In, inl,
  inr, Option-cases, Bool-cases, subst, str_eq, is_empty,
}
use houdry.Prelude.Maps.{Map, get, put, values, map_values}
use houdry.Prelude.Keyed.{
  IsKeyed, put-IsKeyed, delete-IsKeyed, map_values-IsKeyed, In-of_get, key_of_get, All-put,
  All-delete, All-map_values,
}
use houdry.Nodes.Status.{NodeStatus, is_unset, Identity}
use houdry.Nodes.{
  Node, Store, node_id, save, upsert, upserted, touch, stale_keys, modify, beat, heartbeat,
  with_status, set_status, set_drain, drained, set_identity, remove, expire, mark_stale_offline,
  load_rows, loaded_row, open_store,
}

abbrev HasStatus : Node → Type 0
HasStatus n = is_unset n.status ≡ false

-- Rows stand under their own id, once each, and have a status.
pub record IsRegistry (s : Store) : Type 0 where
  pub keyed : IsKeyed node_id s.nodes
  pub known : All HasStatus (values s.nodes)

pub nodes-save : (s : Store) → (save s).nodes ≡ s.nodes
unfolding save
nodes-save s = ground arith

save-IsRegistry : (s : Store) → IsRegistry s → IsRegistry (save s)
save-IsRegistry s h = record {
  keyed = rw (nodes-save s) h.keyed;
  known = rw (nodes-save s) h.known;
}

put-IsRegistry :
    (n : Node) (s : Store)
    → HasStatus n
    → IsRegistry s
    → IsRegistry (record s { nodes = put (node_id n) n s.nodes })
put-IsRegistry n s p h = record {
  keyed = put-IsKeyed node_id n s.nodes h.keyed;
  known = All-put HasStatus (node_id n) n s.nodes p h.known;
}

touch-HasStatus : (now : ℕ) (n : Node) → HasStatus (touch now n)
unfolding touch
touch-HasStatus now n = ground arith

upserted_id :
    (now : ℕ) (n : Node) (o : Option Node) → node_id (touch now (upserted now n o)) ≡ node_id n
unfolding touch upserted
upserted_id now n none = ground arith
upserted_id now n (some e) = refl

upsert-IsRegistry : (now : ℕ) (n : Node) (s : Store) → IsRegistry s → IsRegistry (upsert now n s).0
unfolding upsert
upsert-IsRegistry now n s h =
    let row = touch now (upserted now n (get (node_id n) s.nodes)) in
    let key = upserted_id now n (get (node_id n) s.nodes) in
    save-IsRegistry _ (
      subst (λ k. IsRegistry (record s { nodes = put k row s.nodes })) key
        (put-IsRegistry row s (touch-HasStatus now (upserted now n (get (node_id n) s.nodes))) h))

-- An operation on one row keeps the registry if it keeps the row's id and a status.
modify-IsRegistry :
    (f : Node → Node) (id : String) (s : Store)
    → ((n : Node) → node_id n ≡ id → node_id (f n) ≡ id)
    → ((n : Node) → HasStatus n → HasStatus (f n))
    → IsRegistry s
    → IsRegistry (modify f id s).0
unfolding modify
modify-IsRegistry f id s key set h = elim (Option-cases (get id s.nodes)) [
  | inl e ↦ rw (e, modify) h
  | inr (n, e) ↦
      let at_key = key n (key_of_get node_id id n s.nodes h.keyed e) in
      let known = All-of_In HasStatus n (values s.nodes) h.known (In-of_get id n s.nodes e) in
      rw (e, modify)
        (save-IsRegistry _ (
          subst (λ k. IsRegistry (record s { nodes = put k (f n) s.nodes })) at_key
            (put-IsRegistry (f n) s (set n known) h)))
]

beat-HasStatus : (now : ℕ) (n e : Node) → HasStatus e → HasStatus (beat now n e)
unfolding beat
beat-HasStatus now n e h = ground arith

heartbeat-IsRegistry :
    (now : ℕ) (n : Node) (s : Store) → IsRegistry s → IsRegistry (heartbeat now n s).0
unfolding heartbeat beat
heartbeat-IsRegistry now n s =
    modify-IsRegistry (beat now n) (node_id n) s (λ e p. refl) (beat-HasStatus now n)

set_status-IsRegistry :
    (now : ℕ) (id : String) (status : NodeStatus) (job_id : String) (s : Store)
    → is_unset status ≡ false
    → IsRegistry s
    → IsRegistry (set_status now id status job_id s).0
unfolding set_status
set_status-IsRegistry now id status job_id s set =
    modify-IsRegistry (with_status now status job_id) id s (λ n p. p) (λ n p. ground arith)

set_drain-IsRegistry :
    (now : ℕ) (id : String) (s : Store) → IsRegistry s → IsRegistry (set_drain now id s).0
unfolding set_drain
set_drain-IsRegistry now id s = modify-IsRegistry (drained now) id s (λ n p. p) (λ n p. refl)

set_identity-IsRegistry :
    (id : String) (identity : Identity) (s : Store)
    → IsRegistry s
    → IsRegistry (set_identity id identity s).0
unfolding set_identity
set_identity-IsRegistry id identity s =
    modify-IsRegistry (λ n. record n { identity = identity }) id s (λ n p. p) (λ n p. p)

expire-HasStatus : (now offline : ℕ) (n : Node) → HasStatus n → HasStatus (expire now offline n)
unfolding expire
expire-HasStatus now offline n h = ground arith

id-expire : (now offline : ℕ) (n : Node) → node_id (expire now offline n) ≡ node_id n
unfolding expire
id-expire now offline n = ground arith

mark_stale_offline-IsRegistry :
    (now : ℕ) (s : Store) → IsRegistry s → IsRegistry (mark_stale_offline now s).0
unfolding mark_stale_offline
mark_stale_offline-IsRegistry now s h =
    elim (Bool-cases (is_empty (stale_keys now s.offline s.nodes))) [
      | inl e ↦ rw e swept
      | inr e ↦ rw e (save-IsRegistry _ swept)
    ]
  where
    swept : IsRegistry (record s { nodes = map_values (expire now s.offline) s.nodes })
    swept = record {
      keyed =
          map_values-IsKeyed node_id (expire now s.offline) (id-expire now s.offline) s.nodes
            h.keyed;
      known =
          All-map_values HasStatus (expire now s.offline) (expire-HasStatus now s.offline) s.nodes
            h.known;
    }

remove-IsRegistry : (id : String) (s : Store) → IsRegistry s → IsRegistry (remove id s).0
unfolding remove
remove-IsRegistry id s h = elim (Option-cases (get id s.nodes)) [
  | inl e ↦ rw (e, remove) h
  | inr (n, e) ↦
      rw (e, remove)
        (save-IsRegistry _ (record {
          keyed = delete-IsKeyed node_id id s.nodes h.keyed;
          known = All-delete HasStatus id s.nodes h.known;
        }))
]

-- One operation on the registry. A status is set to a word that is not empty, as all callers do.
pub data Step (s : Store) : Store → Type 0 where
  upserts : (now : ℕ) (n : Node) → Step s (upsert now n s).0
  beats : (now : ℕ) (n : Node) → Step s (heartbeat now n s).0
  sets :
      (now : ℕ) (id : String) (status : NodeStatus) (job_id : String)
      → is_unset status ≡ false
      → Step s (set_status now id status job_id s).0
  drains : (now : ℕ) (id : String) → Step s (set_drain now id s).0
  identifies : (id : String) (identity : Identity) → Step s (set_identity id identity s).0
  removes : (id : String) → Step s (remove id s).0
  sweeps : (now : ℕ) → Step s (mark_stale_offline now s).0

pub data Reach (s : Store) : Store → Type 0 where
  here : Reach s s
  next : {t u : Store} → Reach s t → Step t u → Reach s u

pub Step-IsRegistry : {s t : Store} → Step s t → IsRegistry s → IsRegistry t
Step-IsRegistry {s} (upserts now n) h = upsert-IsRegistry now n s h
Step-IsRegistry {s} (beats now n) h = heartbeat-IsRegistry now n s h
Step-IsRegistry {s} (sets now id status job_id set) h =
    set_status-IsRegistry now id status job_id s set h
Step-IsRegistry {s} (drains now id) h = set_drain-IsRegistry now id s h
Step-IsRegistry {s} (identifies id identity) h = set_identity-IsRegistry id identity s h
Step-IsRegistry {s} (removes id) h = remove-IsRegistry id s h
Step-IsRegistry {s} (sweeps now) h = mark_stale_offline-IsRegistry now s h

load_rows-IsRegistry :
    (rows : List Node) (m : Map Node) (s : Store)
    → IsRegistry (record s { nodes = m })
    → IsRegistry (record s { nodes = load_rows rows m })
unfolding load_rows
load_rows-IsRegistry [] m s h = h
load_rows-IsRegistry (n ∷ ns) m s h =
    load_rows-IsRegistry ns _ s (elim (Bool-cases (str_eq (node_id n) "")) [
      | inl e ↦ rw e h
      | inr e ↦ rw e (put-IsRegistry (loaded_row n) (record s { nodes = m }) (loaded n) h)
    ])
  where
    loaded : (n : Node) → HasStatus (loaded_row n)
    loaded n = ground arith

pub open_store-IsRegistry :
    (offline : ℕ) (writable : Bool) (disk : Option (List Node))
    → IsRegistry (open_store offline writable disk)
unfolding open_store values
open_store-IsRegistry offline writable none = record { keyed = tt; known = tt }
open_store-IsRegistry offline writable (some rows) =
    load_rows-IsRegistry rows []
      (record { nodes = []; offline = offline; disk = some rows; writable = writable })
      (record { keyed = tt; known = tt })

Reach-Keeps : {s t : Store} → IsRegistry s → Reach s t → IsRegistry t
Reach-Keeps h here = h
Reach-Keeps h (next r st) = Step-IsRegistry st (Reach-Keeps h r)

-- Whatever nodes.json held and whatever operations run after it was read, every row stands under
-- its own id, no id has two rows, and every row has a status.
pub Reach-IsRegistry :
    (offline : ℕ) (writable : Bool) (disk : Option (List Node)) {s : Store}
    → Reach (open_store offline writable disk) s
    → IsRegistry s
Reach-IsRegistry offline writable disk r =
    Reach-Keeps (open_store-IsRegistry offline writable disk) r
