-- ===== src/Tests/Serving.antt =====
-- The theorems on all requests, and on the limiter of enrolment.
use houdry.Revocation.{is_revoked}
use houdry.Server.Certificates.{check_node_cert}
use houdry.Server.Work.{handle_claim_job}
use houdry.Prelude.Maps.{get}
use houdry.Prelude.{
  ℕ, ◌≤◌, ◌+◌, ◌*◌, String, true, ◌≡◌, refl, [], ◌∷◌, Option, none, some, arith, ltb, length,
}
use houdry.Prelude.Int.{pos}
use houdry.Jobs.{other}
use houdry.RateLimit.{hits_of, allow, new_limiter}
use houdry.RateLimit.Window.{minute, History, begins, accepts, counted, allow_lem}
use houdry.Server.Enrolling.{Registrar, Csr, Issued}
use houdry.Server.Requests.{Outside, Request, serve}
use houdry.Server.Parts.{IsServer}
use houdry.Server.Invariant.{serve-IsServer}
use houdry.Server.Refusals.{is_refusal, serve-refused}
use houdry.Tests.Cluster.{server-IsServer}
use houdry.Tests.Data.{server, registry, queue, call_of}

-- The limiter after one attempt of an address, five minutes after the start of the clock.
accepted_once : (allow (5 * minute) "a" (new_limiter 1)).1 ≡ true
unfolding allow new_limiter get
accepted_once = refl

history : History 1 (5 * minute) (allow (5 * minute) "a" (new_limiter 1)).0 (("a", 5 * minute) ∷ [])
history =
    accepts {now = 5 * minute} (5 * minute) "a" (begins (omega arith)) (omega arith) accepted_once

allow_lem_example :
    ((allow (5 * minute + 1) "a" (allow (5 * minute) "a" (new_limiter 1)).0).1
      ≡ ltb (counted "a" (5 * minute + 1) (("a", 5 * minute) ∷ [])) 1)
    × (counted "a" (5 * minute + 1) (("a", 5 * minute) ∷ []) ≤ 1)
    × (length
          (hits_of "a" (allow (5 * minute + 1) "a" (allow (5 * minute) "a" (new_limiter 1)).0).0)
        ≤ 1)
allow_lem_example =
    allow_lem 1 (5 * minute) (5 * minute + 1) "a" (allow (5 * minute) "a" (new_limiter 1)).0
      (("a", 5 * minute) ∷ []) history (omega arith)

abbrev read_csr : String → Option Csr
read_csr t = some (record { common_name = t; signed = true; p256 = true })

abbrev issued : ℕ → ℕ → String → Csr → Option Issued
issued now lifetime id c = some (record { fingerprint = "f9"; serial = "s9"; not_after = 900 })

abbrev outside : Outside
outside = record {
  parse_csr = read_csr;
  issue = issued;
  hash = λ t. t;
  encode = λ d c. "{}";
  number = λ t. pos 0;
  decode = λ v. [];
  show = λ i. "call";
  routing = λ p. other "{}";
}

abbrev registrar : Registrar
registrar = record {
  server = server;
  limiter = none;
  tokens = none;
  has_bundle = true;
  lifetime = 100;
}

serve-IsServer_example : IsServer (serve outside (Request.tick 200) registrar).0.server
serve-IsServer_example = serve-IsServer outside (Request.tick 200) registrar server-IsServer

-- A node asks for work in another node's name.
abbrev stolen_claim : Request
stolen_claim = Request.claim_job (call_of "n1") (some "n2")

refused_run : is_refusal (serve outside stolen_claim registrar).1 ≡ true
unfolding serve is_refusal handle_claim_job check_node_cert get is_revoked
refused_run = refl

serve-refused_example :
    ((serve outside stolen_claim registrar).0.server.store ≡ registry)
    × ((serve outside stolen_claim registrar).0.server.jobs ≡ queue)
serve-refused_example = serve-refused outside stolen_claim registrar refl refused_run
