-- ===== src/Tests/Enrolment.antt =====
-- The theorems on enrolment at a server with one token.
use houdry.Prelude.Maps.{get, put}
use houdry.Prelude.{ℕ, String, true, false, ◌≡◌, refl, ◌⊎◌, [], ◌∷◌, Option, none, some}
use houdry.Prelude.Results.{Result, ok, err}
use houdry.Nodes.{Node, lookup, set_identity}
use houdry.Nodes.Status.{Identity}
use houdry.Revocation as Denylist
use houdry.Enrollment as Tokens
use houdry.Enrollment.{Record}
use houdry.Server.Certificates.{
  Server, Response, Certificate, Credentials, authorized, check_node_cert,
}
use houdry.Server.Work.{handle_admin_identity}
use houdry.Server.Enrolling.{Registrar, EnrollRequest, Csr, Issued, handle_enroll}
use houdry.Server.Issuing.{IsEnrolled, handle_enroll-IsEnrolled}
use houdry.Server.Superseded.{superseded_passes}
use houdry.Tests.Data.{server, ready_node}

abbrev read_csr : String → Option Csr
read_csr t = some (record { common_name = t; signed = true; p256 = true })

abbrev issued : ℕ → ℕ → String → Csr → Option Issued
issued now lifetime id c = some (record { fingerprint = "f9"; serial = "s9"; not_after = 900 })

abbrev plain : String → String
plain t = t

abbrev invitation : Record
invitation = record {
  id = "r";
  token_hash = "t";
  expires = 100;
  uses = 1;
  created_at = 0;
  consumed_at = 0;
  node_id = "";
}

abbrev invitations : Tokens.Store
invitations = record {
  records = [];
  ttl = 10;
  uses = 1;
  disk = some (invitation ∷ []);
  writable = true;
}

abbrev registrar_of : Server → Registrar
registrar_of s = record {
  server = s;
  limiter = none;
  tokens = some invitations;
  has_bundle = true;
  lifetime = 100;
}

abbrev request_of : String → EnrollRequest
request_of id = record { node_id = id; csr = id; token = "t" }

handle_enroll-IsEnrolled_example :
    ((e : Response) × ((handle_enroll read_csr issued plain 50 "10.0.0.1"
          (some (request_of "n9"))
          (registrar_of server)).1
        ≡ err e))
    ⊎ ((row : Node) × ((handle_enroll read_csr issued plain 50 "10.0.0.1"
            (some (request_of "n9"))
            (registrar_of server)).1
          ≡ ok row)
        × IsEnrolled read_csr issued plain 50 "10.0.0.1"
            (request_of "n9")
            (registrar_of server)
            (handle_enroll read_csr issued plain 50 "10.0.0.1"
              (some (request_of "n9"))
              (registrar_of server)).0
            row)
handle_enroll-IsEnrolled_example =
    handle_enroll-IsEnrolled read_csr issued plain 50 "10.0.0.1" (request_of "n9")
      (registrar_of server)

abbrev token : Credentials
token = record { houdry_token = "secret"; authorization = "" }

-- A certificate that n1 had before it renewed to the one of its row.
abbrev old_cert : Certificate
old_cert = record { signed = true; common_name = "n1"; serial = "s0" }

abbrev revoked : Server
revoked = (handle_admin_identity Identity.revoked token (some "n1") server).0

abbrev row_in : Result Response Node → Node
row_in (ok n) = n
row_in (err e) = ready_node

abbrev row : Node
row =
    row_in
      (handle_enroll read_csr issued plain 50 "10.0.0.1" (some (request_of "n1"))
        (registrar_of revoked)).1

row_made :
    (handle_enroll read_csr issued plain 50 "10.0.0.1"
      (some (request_of "n1"))
      (registrar_of revoked)).1
    ≡ ok row
unfolding handle_enroll handle_admin_identity get authorized set_identity put Tokens.consume
row_made = refl

token_right : authorized token server ≡ true
unfolding authorized
token_right = refl

listed : lookup "n1" server.store ≡ some ready_node
unfolding lookup get
listed = refl

unlisted : Denylist.is_revoked "s0" server.denylist ≡ false
unfolding Denylist.is_revoked get
unlisted = refl

superseded_passes_example :
    (check_node_cert false false
      (some old_cert)
      (handle_enroll read_csr issued plain 50 "10.0.0.1"
        (some (request_of "n1"))
        (registrar_of revoked)).0.server).1
    ≡ ok "n1"
superseded_passes_example =
    superseded_passes read_csr issued plain 50 "10.0.0.1" "n1" token old_cert ready_node row
      (request_of "n1") server (registrar_of revoked) token_right refl listed refl refl refl
      unlisted refl refl row_made
