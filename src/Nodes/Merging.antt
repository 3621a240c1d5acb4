-- ===== src/Nodes/Merging.antt =====
-- Upsert of internal/server/store.go on a row that is there.
use houdry.Prelude.{
  ℕ, String, false, ◌≡◌, ◌∙◌, refl, inl, inr, Option-cases, some, arith, if◌then◌else◌, str_eq,
}
use houdry.Prelude.Maps.{get, put, get-put}
use houdry.Nodes.Registry.{nodes-save}
use houdry.Nodes.Status.{is_unset, no_id, Identity}
use houdry.Nodes.{Node, Store, node_id, lookup, upsert, upserted, touch, merge, first_join}

-- The certificate that a row records, as its three fields.
abbrev pub certificate : Node → String × String × ℕ
certificate n = (n.cert_fingerprint, n.cert_serial, n.cert_not_after)

merge-certificate :
    (now : ℕ) (n e : Node)
    → certificate (touch now (merge n e))
      ≡ (if str_eq n.cert_fingerprint "" then certificate e else certificate n)
unfolding touch merge
merge-certificate now n e = ground arith

joined_merge : (now : ℕ) (n e : Node) → (touch now (merge n e)).joined_at ≡ e.joined_at
unfolding touch merge
joined_merge now n e = refl

seen_merge : (now : ℕ) (n e : Node) → (touch now (merge n e)).last_seen ≡ now
unfolding touch merge
seen_merge now n e = refl

status_merge :
    (now : ℕ) (n e : Node)
    → is_unset e.status ≡ false
    → (touch now (merge n e)).status ≡ (if is_unset n.status then e.status else n.status)
unfolding touch merge
status_merge now n e h = ground arith

row_of_known :
    (now : ℕ) (n e : Node) (s : Store)
    → lookup (node_id n) s ≡ some e
    → (upsert now n s).1 ≡ touch now (merge n e)
unfolding upsert upserted
row_of_known now n e s h = rw (h, upserted) refl

pub row-upsert :
    (now : ℕ) (n : Node) (s : Store) (id : String)
    → lookup id (upsert now n s).0
      ≡ (if str_eq (node_id n) id then some (upsert now n s).1 else lookup id s)
unfolding upsert
row-upsert now n s id =
    let row = touch now (upserted now n (get (node_id n) s.nodes)) in
    rw (nodes-save (record s { nodes = put (node_id n) row s.nodes }))
      (get-put (node_id n) id row s.nodes)

-- Registering a node whose row has a status keeps the time at which it first joined, keeps its status
-- where the request gives none, and takes the three fields of a certificate from one side together,
-- from the row where the request gives no fingerprint. The row is stamped with the current time, and
-- every other row is left alone.
pub upsert-keeps :
    (now : ℕ) (n e : Node) (s : Store)
    → lookup (node_id n) s ≡ some e
    → is_unset e.status ≡ false
    → (((upsert now n s).1.joined_at ≡ e.joined_at) × ((upsert now n s).1.last_seen ≡ now))
      × (certificate (upsert now n s).1
          ≡ (if str_eq n.cert_fingerprint "" then certificate e else certificate n))
      × ((upsert now n s).1.status ≡ (if is_unset n.status then e.status else n.status))
      × ((id : String)
          → lookup id (upsert now n s).0
            ≡ (if str_eq (node_id n) id then some (upsert now n s).1 else lookup id s))
upsert-keeps now n e s h set =
    let is_row = row_of_known now n e s h in
    (
      (rw is_row (joined_merge now n e), rw is_row (seen_merge now n e)),
      rw is_row (merge-certificate now n e),
      rw is_row (status_merge now n e set),
      row-upsert now n s,
    )

-- A registration with an identity leaves a row with that identity, whatever row was there.
pub identity-upsert :
    (now : ℕ) (n : Node) (s : Store)
    → no_id n.identity ≡ false
    → (upsert now n s).1.identity ≡ n.identity
unfolding upsert upserted touch merge first_join
identity-upsert now n s h = elim (Option-cases (get (node_id n) s.nodes)) [
  | inl e ↦ rw e (ground arith)
  | inr (x, e) ↦ rw e (ground arith)
]

pub active-upsert :
    (now : ℕ) (n : Node) (s : Store)
    → n.identity ≡ Identity.active
    → (upsert now n s).1.identity ≡ Identity.active
active-upsert now n s h = identity-upsert now n s (ground arith) ∙ h
