-- ===== src/Server/Enrolling.antt =====
-- handleEnroll and handleRenew of internal/server/enroll.go, with SignCSR of internal/pki/pki.go. What
-- crypto/x509 does is a parameter: reading a signing request, and issuing a certificate with a fresh
-- serial. A certificate that is sent back is left out of the answer; the row records it.
use houdry.Prelude.{
  ℕ, String, Bool, true, false, not, ◌&&◌, ◌||◌, Option, none, some, str_eq, if◌then◌else◌,
}
use houdry.Prelude.Results.{Result, ok, err}
use houdry.Nodes.{Node, lookup, upsert}
use houdry.Nodes.Status.{NodeStatus, Identity, is_certified, is_revoked}
use houdry.RateLimit.{Limiter, allow}
use houdry.Enrollment as Tokens
use houdry.Server.Certificates.{Server, Response, denied, check_node_cert}
use houdry.Server.Agents.{Call, zero_node}

-- The server with what only enrolment uses. Without tokens or a bundle, enrolment is not configured.
pub record Registrar : Type 0 where
  pub server : Server
  pub limiter : Option Limiter
  pub tokens : Option Tokens.Store
  pub has_bundle : Bool
  pub lifetime : ℕ

pub record EnrollRequest : Type 0 where
  pub node_id : String
  pub csr : String
  pub token : String

-- A signing request: its name, whether its signature is its own key's, and whether that is a P-256 key.
pub record Csr : Type 0 where
  pub common_name : String
  pub signed : Bool
  pub p256 : Bool

pub record Issued : Type 0 where
  pub fingerprint : String
  pub serial : String
  pub not_after : ℕ

-- A row with a certificate that is not revoked.
unfoldable pub is_enrolled : Option Node → Bool
is_enrolled none = false
is_enrolled (some n) = not (str_eq n.cert_serial "") && not (is_revoked n.identity)

unfoldable pub limited : ℕ → String → Registrar → Registrar × Bool
limited now ip r = elim r.limiter [
  | none ↦ (r, true)
  | some l ↦ (record r { limiter = some (allow now ip l).0 }, (allow now ip l).1)
]

-- The row of a node that enrols.
unfoldable pub enrolling : String → String → Issued → Node
enrolling ip id cert = record zero_node {
  inventory = record zero_node.inventory { node_id = id };
  identity = Identity.certified;
  cert_fingerprint = cert.fingerprint;
  cert_serial = cert.serial;
  cert_not_after = cert.not_after;
  remote_ip = ip;
  status = NodeStatus.joined;
}

-- The row of a node that renews its certificate.
unfoldable pub renewed : Issued → Node → Node
renewed cert n = record n {
  cert_fingerprint = cert.fingerprint;
  cert_serial = cert.serial;
  cert_not_after = cert.not_after;
  identity = if is_certified n.identity then Identity.active else n.identity;
}

unfoldable pub registered : ℕ → Node → Registrar → Registrar × Result Response Node
registered now n r =
    let (store, row) = upsert now n r.server.store in
    (record r { server = record r.server { store = store } }, ok row)

module _ (parse_csr : String → Option Csr) (issue : ℕ → ℕ → String → Csr → Option Issued) where
  -- SignCSR
  unfoldable pub sign_csr : ℕ → ℕ → String → String → Option Issued
  sign_csr now lifetime csr id = elim (parse_csr csr) [
    | none ↦ none
    | some c ↦
        if not c.signed || not c.p256 || not (str_eq c.common_name id)
        then none
        else issue now lifetime id c
  ]

  module _ (hash : String → String) where
    unfoldable pub certify :
        ℕ → String → EnrollRequest → Registrar → Registrar × Result Response Node
    unfolding sign_csr enrolling registered
    certify now ip req r = elim (sign_csr now r.lifetime req.csr req.node_id) [
      | none ↦ (r, err (denied 400 "csr refused"))
      | some cert ↦ registered now (enrolling ip req.node_id cert) r
    ]

    unfoldable pub spend_token :
        ℕ → String → EnrollRequest → Tokens.Store → Registrar → Registrar × Result Response Node
    unfolding certify
    spend_token now ip req tokens r =
        let (spent, refusal) = Tokens.consume hash now req.token req.node_id tokens in
        let after : Registrar = record r { tokens = some spent } in
        elim refusal [
          | some e ↦ (after, err (denied 401 "token refused"))
          | none ↦ certify now ip req after
        ]

    unfoldable pub vetted :
        ℕ
        → String
        → EnrollRequest
        → Tokens.Store
        → Option Csr
        → Registrar
        → Registrar × Result Response Node
    unfolding spend_token is_enrolled
    vetted now ip req tokens none r = (r, err (denied 400 "malformed CSR"))
    vetted now ip req tokens (some c) r =
        if not c.signed
        then (r, err (denied 400 "invalid CSR signature"))
        else if not (str_eq c.common_name req.node_id)
        then (r, err (denied 400 "CSR CN does not match node_id"))
        else if is_enrolled (lookup req.node_id r.server.store)
        then (r, err (denied 409 "node already enrolled"))
        else spend_token now ip req tokens r

    unfoldable pub take_request :
        ℕ → String → Option EnrollRequest → Registrar → Registrar × Result Response Node
    unfolding vetted
    take_request now ip none r = (r, err (denied 400 "invalid json"))
    take_request now ip (some req) r =
        if str_eq req.node_id "" || str_eq req.csr ""
        then (r, err (denied 400 "node_id and csr are required"))
        else if not r.has_bundle
        then (r, err (denied 503 "enrollment not configured"))
        else elim r.tokens [
          | none ↦ (r, err (denied 503 "enrollment not configured"))
          | some tokens ↦ vetted now ip req tokens (parse_csr req.csr) r
        ]

    -- handleEnroll
    unfoldable pub handle_enroll :
        ℕ → String → Option EnrollRequest → Registrar → Registrar × Result Response Node
    unfolding limited take_request
    handle_enroll now ip body r =
        let (after, allowed) = limited now ip r in
        if not allowed
        then (after, err (denied 429 "too many enrollment attempts"))
        else take_request now ip body after

  unfoldable pub renew_row : ℕ → String → String → Registrar → Registrar × Result Response Node
  unfolding sign_csr renewed registered
  renew_row now id csr r = elim (sign_csr now r.lifetime csr id) [
    | none ↦ (r, err (denied 400 "csr refused"))
    | some cert ↦
        registered now
          (renewed cert (elim (lookup id r.server.store) [ none ↦ zero_node | some n ↦ n ])) r
  ]

  unfoldable pub renew_checked :
      ℕ → Option String → Registrar → Result Response String → Registrar × Result Response Node
  unfolding renew_row
  renew_checked now body r (err refusal) = (r, err refusal)
  renew_checked now none r (ok id) = (r, err (denied 400 "csr is required"))
  renew_checked now (some csr) r (ok id) =
      if str_eq csr "" then (r, err (denied 400 "csr is required")) else renew_row now id csr r

  -- handleRenew
  unfoldable pub handle_renew : Call → Option String → Registrar → Registrar × Result Response Node
  unfolding renew_checked
  handle_renew call body r =
      let (server, checked) = check_node_cert true false call.peer r.server in
      renew_checked call.now body (record r { server = server }) checked
