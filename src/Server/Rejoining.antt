-- ===== src/Server/Rejoining.antt =====
-- handleLeave and then handleJoin of internal/server/server.go, called by a node that is suspended.
use houdry.Prelude.{
  ℕ, String, true, false, ◌≡◌, sym, ◌∙◌, subst, inl, inr, none, some, Option-cases, str_eq, eq_iff,
  eq_refl, ◌==◌, if◌then◌else◌, arith,
}
use houdry.Prelude.Maps.{get, delete, get-delete}
use houdry.Prelude.Results.{ok}
use houdry.Revocation as Denylist
use houdry.Nodes.{Node, Store, lookup, node_id, set_status, remove, upsert}
use houdry.Nodes.Status.{NodeStatus, Identity}
use houdry.Nodes.Registry.{nodes-save}
use houdry.Nodes.Merging.{row-upsert, active-upsert}
use houdry.Server.Certificates.{Server, Certificate, check_node_cert, check_row}
use houdry.Server.Agents.{
  Call, JoinRequest, handle_join, handle_leave, leave_row, is_working, admit, joining,
  read_join_request, read_node_id, named,
}
use houdry.Server.Handout.{guarded-ok}

lookup-remove : (id : String) (s : Store) → lookup id (remove id s).0 ≡ none
unfolding remove
lookup-remove id s = elim (Option-cases (get id s.nodes)) [
  | inl e ↦ rw (e, remove) e
  | inr (n, e) ↦
      rw (e, remove, nodes-save (record s { nodes = delete id s.nodes }))
        (ground (arith, get-delete id id s.nodes, eq_refl id))
]

leave_row-gone :
    (now : ℕ) (id : String) (n : Node) (s : Server)
    → lookup id s.store ≡ some n
    → is_working n ≡ false
    → lookup id (leave_row now id s).0.store ≡ none
unfolding leave_row
leave_row-gone now id n s row idle =
    rw (row, leave_row)
      (rw idle (lookup-remove id (set_status now id NodeStatus.offline "" s.store).0))

joining-active :
    (call : Call) (req : JoinRequest)
    → ((joining call req).identity ≡ Identity.active)
      × (node_id (joining call req) ≡ req.inventory.node_id)
unfolding joining
joining-active call req = (ground arith, ground arith)

admit_active :
    (call : Call) (req : JoinRequest) (s : Server)
    → (m : Node) × (lookup req.inventory.node_id (admit call req s).0.store ≡ some m)
      × (m.identity ≡ Identity.active)
unfolding admit
admit_active call req s =
    let (active, at_id) = joining-active call req in
    (
      (upsert call.now (joining call req) s.store).1,
      row-upsert call.now (joining call req) s.store req.inventory.node_id
          ∙ ground (arith, at_id, eq_iff (node_id (joining call req)) req.inventory.node_id),
      active-upsert call.now (joining call req) s.store active,
    )

module _ (c : Certificate) (id : String) (signed : c.signed ≡ true) (name : c.common_name ≡ id)
    (named_id : str_eq id "" ≡ false) where
  may_leave :
      (n : Node) (s : Server)
      → lookup id s.store ≡ some n
      → n.identity ≡ Identity.suspended
      → Denylist.is_revoked c.serial s.denylist ≡ false
      → ((check_node_cert true false (some c) s).1 ≡ ok id)
        × ((check_node_cert true false (some c) s).0.store ≡ s.store)
  unfolding check_node_cert check_row
  may_leave n s row suspended listed = (ground arith, ground arith)

  may_join :
      (s : Server) → lookup id s.store ≡ none → (check_node_cert false true (some c) s).1 ≡ ok id
  unfolding check_node_cert
  may_join s gone = ground arith

left_gone :
    (call : Call) (c : Certificate) (id : String) (n : Node) (s : Server)
    → call.peer ≡ some c
    → (check_node_cert true false (some c) s).1 ≡ ok id
    → (check_node_cert true false (some c) s).0.store ≡ s.store
    → str_eq id "" ≡ false
    → lookup id s.store ≡ some n
    → is_working n ≡ false
    → lookup id (handle_leave call (some id) s).0.store ≡ none
unfolding handle_leave read_node_id
left_gone call c id n s p passed same named_id row idle =
    rw (p, guarded-ok (check_node_cert true false (some c) s) _ id passed, named_id, eq_refl id)
      (leave_row-gone call.now id n (check_node_cert true false (some c) s).0
        (subst (λ x. lookup id x ≡ some n) (sym same) row) idle)

joins_active :
    (again : Call) (c : Certificate) (id : String) (req : JoinRequest) (s : Server)
    → again.peer ≡ some c
    → (check_node_cert false true (some c) s).1 ≡ ok id
    → str_eq id "" ≡ false
    → req.inventory.node_id ≡ id
    → (m : Node) × (lookup id (handle_join again (some req) s).0.store ≡ some m)
      × (m.identity ≡ Identity.active)
unfolding handle_join read_join_request named
joins_active again c id req s p passed named_id is_id =
    let read : JoinRequest = record req {
      inventory = record req.inventory {
        node_id = id;
        detected_at =
            if req.inventory.detected_at == 0 then again.now else req.inventory.detected_at;
      };
    } in
    rw
      (
        p,
        guarded-ok (check_node_cert false true (some c) s) _ id passed,
        is_id,
        named_id,
        eq_refl id,
      )
      (rw named_id (admit_active again (named id read) (check_node_cert false true (some c) s).0))

-- A suspended node without work that calls leave and then join under its own certificate has an
-- ACTIVE row afterwards.
pub rejoin_undoes_suspension :
    (call again : Call) (c : Certificate) (id : String) (n : Node) (req : JoinRequest) (s : Server)
    → call.peer ≡ some c
    → again.peer ≡ some c
    → c.signed ≡ true
    → c.common_name ≡ id
    → str_eq id "" ≡ false
    → Denylist.is_revoked c.serial s.denylist ≡ false
    → lookup id s.store ≡ some n
    → n.identity ≡ Identity.suspended
    → is_working n ≡ false
    → req.inventory.node_id ≡ id
    → (m : Node) × (lookup id
          (handle_join again (some req) (handle_leave call (some id) s).0).0.store
        ≡ some m)
      × (m.identity ≡ Identity.active)
rejoin_undoes_suspension call again c id n req s p q signed name named_id listed row suspended idle
      is_id =
    let (passed, same) = may_leave c id signed name named_id n s row suspended listed in
    let gone = left_gone call c id n s p passed same named_id row idle in
    joins_active again c id req (handle_leave call (some id) s).0 q
      (may_join c id signed name named_id (handle_leave call (some id) s).0 gone) named_id is_id
