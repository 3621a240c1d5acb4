-- ===== src/Server/Certificates.antt =====
-- The server's state and responses, checkNodeCert of internal/server/mtls.go, and authorized of
-- internal/server/server.go. Whether a certificate is signed by the cluster's CA is for crypto/x509
-- to say, and is a field of the certificate here.
use houdry.Prelude.{String, Bool, true, not, ◌&&◌, ℕ, Option, none, some, str_eq, if◌then◌else◌}
use houdry.Prelude.Results.{Result, ok, err}
use houdry.Text.{cut_prefix}
use houdry.Nodes.{Node, Store, lookup}
use houdry.Nodes.Status.{is_suspended, is_revoked}
use houdry.Jobs.{Job, JobStore}
use houdry.Revocation.{Revocation, load}
use houdry.Revocation as Denylist

pub record Server : Type 0 where
  pub store : Store
  pub jobs : JobStore
  pub denylist : Revocation
  pub token : String

pub record Certificate : Type 0 where
  pub signed : Bool
  pub common_name : String
  pub serial : String

-- What writeJSON sends: an error with its code, a node, a job, the answer of leave, or 204.
pub data Response : Type 0 where
  denied : ℕ → String → Response
  node_row : Node → Response
  job_row : Job → Response
  left : String → Response
  no_content : Response

-- The certificate's node has a row. The denylist is read again, unless the row is revoked itself.
unfoldable pub check_row : Bool → Certificate → Node → Server → Server × Result Response String
check_row allow_suspended c n s =
    if is_revoked n.identity then (s, err (denied 403 "node revoked")) else (
      record s { denylist = load s.denylist },
      if Denylist.is_revoked c.serial s.denylist
          then err (denied 403 "node revoked")
          else if is_suspended n.identity && not allow_suspended
          then err (denied 403 "node suspended")
          else ok c.common_name,
    )

-- checkNodeCert: the node id of the peer's certificate, or the refusal.
unfoldable pub check_node_cert :
    Bool → Bool → Option Certificate → Server → Server × Result Response String
unfolding check_row
check_node_cert allow_suspended allow_unknown none s =
    (s, err (denied 401 "client certificate required"))
check_node_cert allow_suspended allow_unknown (some c) s =
    if not c.signed
    then (s, err (denied 401 "client certificate required"))
    else if str_eq c.common_name ""
    then (s, err (denied 401 "certificate has no node id"))
    else elim (lookup c.common_name s.store) [
      | none ↦ (s, if allow_unknown then ok c.common_name else err (denied 401 "node not enrolled"))
      | some n ↦ check_row allow_suspended c n s
    ]

-- A handler goes on with what a check answers, or ends with its refusal.
abbrev pub guarded :
    Server × Result Response String → (String → Server → Server × Response) → Server × Response
guarded (s, err r) f = (s, r)
guarded (s, ok id) f = f id s

-- The token that a request presents: X-Houdry-Token, or what follows "Bearer " in Authorization.
pub record Credentials : Type 0 where
  pub houdry_token : String
  pub authorization : String

presented : Credentials → String
presented c =
    if str_eq c.houdry_token ""
    then elim (cut_prefix c.authorization "Bearer ") [ none ↦ "" | some t ↦ t ]
    else c.houdry_token

-- authorized
unfoldable pub authorized : Credentials → Server → Bool
unfolding presented
authorized c s = if str_eq s.token "" then true else str_eq (presented c) s.token
