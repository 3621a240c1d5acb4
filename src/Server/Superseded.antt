-- ===== src/Server/Superseded.antt =====
-- handleAdminIdentity and then handleEnroll of internal/server/enroll.go, and checkNodeCert of
-- internal/server/mtls.go on a certificate that was replaced by a renewal before.
use houdry.Prelude.{
  ℕ, String, true, false, ◌≡◌, refl, ap, ◌∙◌, inl, inr, Option, some, str_eq, eq_iff, arith,
  Bool-cases,
}
use houdry.Prelude.Results.{ok}
use houdry.Revocation as Denylist
use houdry.Revocation.{Revocation, revoke}
use houdry.Revocation.Denylist.{is_revoked-revoke}
use houdry.Nodes.{Node, node_id, lookup, upsert}
use houdry.Nodes.Status.{Identity}
use houdry.Nodes.Merging.{row-upsert, identity-upsert}
use houdry.Server.Certificates.{
  Server, Certificate, Credentials, authorized, check_node_cert, check_row,
}
use houdry.Server.Agents.{read_node_id}
use houdry.Server.Work.{handle_admin_identity, identify_row, denylisted}
use houdry.Server.Enrolling.{Registrar, EnrollRequest, Csr, Issued, enrolling, handle_enroll}
use houdry.Server.Issuing.{enroll_ok}

-- What revoking the node leaves of the denylist.
denylist-revoke :
    (cred : Credentials) (id : String) (n : Node) (s : Server)
    → authorized cred s ≡ true
    → str_eq id "" ≡ false
    → lookup id s.store ≡ some n
    → (handle_admin_identity Identity.revoked cred (some id) s).0.denylist
      ≡ (denylisted Identity.revoked id n s).denylist
unfolding handle_admin_identity identify_row read_node_id
denylist-revoke cred id n s a i row = rw (a, i, row, identify_row) refl

still_unlisted :
    (serial id : String) (n : Node) (s : Server)
    → Denylist.is_revoked serial s.denylist ≡ false
    → str_eq n.cert_serial serial ≡ false
    → Denylist.is_revoked serial (denylisted Identity.revoked id n s).denylist ≡ false
unfolding denylisted
still_unlisted serial id n s h differs = elim (Bool-cases (str_eq n.cert_serial "")) [
  | inl e ↦ rw e h
  | inr e ↦ rw e (ground (arith, is_revoked-revoke n.cert_serial id serial s.denylist))
]

passes :
    (c : Certificate) (id : String) (n : Node) (s : Server)
    → c.signed ≡ true
    → c.common_name ≡ id
    → str_eq id "" ≡ false
    → lookup id s.store ≡ some n
    → n.identity ≡ Identity.certified
    → Denylist.is_revoked c.serial s.denylist ≡ false
    → (check_node_cert false false (some c) s).1 ≡ ok id
unfolding check_node_cert check_row
passes c id n s signed name named row certified unlisted = ground arith

enrolling_certified :
    (ip id : String) (cert : Issued)
    → ((enrolling ip id cert).identity ≡ Identity.certified) × (node_id (enrolling ip id cert) ≡ id)
unfolding enrolling
enrolling_certified ip id cert = (refl, refl)

-- A certificate of a node that was replaced by another before the node is revoked, and so is not on
-- the denylist, passes the check again as soon as the node is enrolled anew after the revocation.
pub superseded_passes :
    (parse_csr : String → Option Csr) (issue : ℕ → ℕ → String → Csr → Option Issued)
    (hash : String → String) (now : ℕ) (ip id : String) (cred : Credentials) (c : Certificate)
    (n row : Node) (req : EnrollRequest) (s : Server) (r : Registrar)
    → authorized cred s ≡ true
    → str_eq id "" ≡ false
    → lookup id s.store ≡ some n
    → c.signed ≡ true
    → c.common_name ≡ id
    → str_eq n.cert_serial c.serial ≡ false
    → Denylist.is_revoked c.serial s.denylist ≡ false
    → r.server ≡ (handle_admin_identity Identity.revoked cred (some id) s).0
    → req.node_id ≡ id
    → (handle_enroll parse_csr issue hash now ip (some req) r).1 ≡ ok row
    → (check_node_cert false false
        (some c)
        (handle_enroll parse_csr issue hash now ip (some req) r).0.server).1
      ≡ ok id
superseded_passes parse_csr issue hash now ip id cred c n row req s r a i known signed name differs
      unlisted is_r is_id h =
    let e = enroll_ok parse_csr issue hash now ip req r row h in
    let fresh = enrolling ip req.node_id e.cert in
    let (certified, at_id) = enrolling_certified ip req.node_id e.cert in
    let after = (upsert now fresh r.server.store) in
    let same_list : r.server.denylist ≡ (denylisted Identity.revoked id n s).denylist =
      ap (λ (t : Server). t.denylist) is_r ∙ denylist-revoke cred id n s a i known in
    let found : lookup id after.0 ≡ some after.1 =
      row-upsert now fresh r.server.store id
      ∙ ground (arith, at_id, is_id, eq_iff (node_id fresh) id) in
    rw e.stored (
      passes c id after.1 (record r.server { store = after.0 }) signed name i found
        (identity-upsert now fresh r.server.store (ground arith) ∙ certified)
        (rw same_list (still_unlisted c.serial id n s unlisted differs)))
