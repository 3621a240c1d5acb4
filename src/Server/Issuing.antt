-- ===== src/Server/Issuing.antt =====
-- handleEnroll of internal/server/enroll.go: who is enrolled.
use houdry.Prelude.{
  ◌⊎◌, ℕ, String, true, false, not, ◌&&◌, ◌||◌, ◌≡◌, refl, sym, ap, ◌∙◌, subst, inl, inr, Option,
  none, some, str_eq, arith, Bool-cases, Option-cases,
}
use houdry.Prelude.Results.{Result, ok, err, Result-cases}
use houdry.Nodes.{Node, lookup, upsert}
use houdry.Enrollment as Tokens
use houdry.Server.Certificates.{Server, Response}
use houdry.Server.Enrolling.{
  Registrar, EnrollRequest, Csr, Issued, is_enrolled, limited, enrolling, registered, sign_csr,
  certify, spend_token, vetted, take_request, handle_enroll,
}

registered_lem :
    (now : ℕ) (n : Node) (r : Registrar) (s : Server) (row : Node)
    (x : Registrar × Result Response Node)
    → x ≡ registered now n r
    → r.server ≡ s
    → x.1 ≡ ok row
    → (x.0.tokens ≡ r.tokens)
      × (x.0.server ≡ record s { store = (upsert now n s.store).0 })
      × (row ≡ (upsert now n s.store).1)
unfolding registered
registered_lem now n r s row x made same h = (
  ap (λ y. y.0.tokens) made,
  ap (λ y. y.0.server) made
      ∙ ap {A = Server} (λ t. record t { store = (upsert now n t.store).0 }) same,
  ok_injective
      (sym h ∙ ap (λ y. y.1) made ∙ ap {A = Server} (λ t. ok (upsert now n t.store).1) same),
)
  where
    ok_injective : {a b : Node} → ◌≡◌ {A = Result Response Node} (ok a) (ok b) → a ≡ b
    ok_injective e = cc

module _ (parse_csr : String → Option Csr) (issue : ℕ → ℕ → String → Csr → Option Issued)
    (hash : String → String) where
  -- What an enrolment rests on, and what it leaves behind.
  pub record IsEnrolled (now : ℕ) (ip : String) (req : EnrollRequest) (r after : Registrar)
      (row : Node) : Type 0 where
    pub allowed : (limited now ip r).1 ≡ true
    pub csr : Csr
    pub parsed : parse_csr req.csr ≡ some csr
    pub own : (csr.signed && csr.p256 && str_eq csr.common_name req.node_id) ≡ true
    pub unenrolled : is_enrolled (lookup req.node_id r.server.store) ≡ false
    pub tokens : Tokens.Store
    pub held : r.tokens ≡ some tokens
    pub spent : after.tokens ≡ some (Tokens.consume hash now req.token req.node_id tokens).0
    pub accepted : (Tokens.consume hash now req.token req.node_id tokens).1 ≡ none
    pub cert : Issued
    pub issued : issue now r.lifetime req.node_id csr ≡ some cert
    pub stored :
        after.server
        ≡ record r.server { store = (upsert now (enrolling ip req.node_id cert) r.server.store).0 }
    pub answered : row ≡ (upsert now (enrolling ip req.node_id cert) r.server.store).1

  sign_csr_lem :
      (now lifetime : ℕ) (csr id : String) (cert : Issued) (c : Csr)
      → parse_csr csr ≡ some c
      → sign_csr parse_csr issue now lifetime csr id ≡ some cert
      → ((c.signed && c.p256 && str_eq c.common_name id) ≡ true)
        × (issue now lifetime id c ≡ some cert)
  unfolding sign_csr
  sign_csr_lem now lifetime csr id cert c p h = (ground arith, ground arith)

  certify_ok :
      (now : ℕ) (ip : String) (req : EnrollRequest) (r : Registrar) (row : Node)
      → (certify parse_csr issue hash now ip req r).1 ≡ ok row
      → (cert : Issued) × (sign_csr parse_csr issue now r.lifetime req.csr req.node_id ≡ some cert)
        × (certify parse_csr issue hash now ip req r
            ≡ registered now (enrolling ip req.node_id cert) r)
  unfolding certify
  certify_ok now ip req r row h =
      elim (Option-cases (sign_csr parse_csr issue now r.lifetime req.csr req.node_id)) [
        | inl e ↦ absurd (ground arith)
        | inr (cert, e) ↦ (cert, e, rw (e, certify) refl)
      ]

  abbrev after_spending : ℕ → EnrollRequest → Tokens.Store → Registrar → Registrar
  after_spending now req tokens r = record r {
    tokens = some (Tokens.consume hash now req.token req.node_id tokens).0;
  }

  spend_ok :
      (now : ℕ) (ip : String) (req : EnrollRequest) (tokens : Tokens.Store) (r : Registrar)
      (row : Node)
      → (spend_token parse_csr issue hash now ip req tokens r).1 ≡ ok row
      → ((Tokens.consume hash now req.token req.node_id tokens).1 ≡ none)
        × (spend_token parse_csr issue hash now ip req tokens r
            ≡ certify parse_csr issue hash now ip req (after_spending now req tokens r))
  unfolding spend_token
  spend_ok now ip req tokens r row h =
      elim (Option-cases (Tokens.consume hash now req.token req.node_id tokens).1) [
        | inl e ↦ (e, rw (e, spend_token) refl)
        | inr (x, e) ↦ absurd (ground arith)
      ]

  vetted_ok :
      (now : ℕ) (ip : String) (req : EnrollRequest) (tokens : Tokens.Store) (o : Option Csr)
      (r : Registrar) (row : Node)
      → (vetted parse_csr issue hash now ip req tokens o r).1 ≡ ok row
      → (c : Csr) × (o ≡ some c)
        × (is_enrolled (lookup req.node_id r.server.store) ≡ false)
        × (vetted parse_csr issue hash now ip req tokens o r
            ≡ spend_token parse_csr issue hash now ip req tokens r)
  unfolding vetted
  vetted_ok now ip req tokens none r row h = absurd (ground arith)
  vetted_ok now ip req tokens (some c) r row h = (c, refl, ground arith, ground arith)

  take_ok :
      (now : ℕ) (ip : String) (req : EnrollRequest) (r : Registrar) (row : Node)
      → (take_request parse_csr issue hash now ip (some req) r).1 ≡ ok row
      → (tokens : Tokens.Store) × (r.tokens ≡ some tokens)
        × (take_request parse_csr issue hash now ip (some req) r
            ≡ vetted parse_csr issue hash now ip req tokens (parse_csr req.csr) r)
  unfolding take_request
  take_ok now ip req r row h = elim (Option-cases r.tokens) [
    | inl e ↦ absurd (ground arith)
    | inr (tokens, e) ↦
        elim (Bool-cases (str_eq req.node_id "" || str_eq req.csr "" || not r.has_bundle)) [
          | inl b ↦ absurd (ground arith)
          | inr b ↦ (tokens, e, ground arith)
        ]
  ]

  limited_same :
      (now : ℕ) (ip : String) (r : Registrar)
      → ((limited now ip r).0.server ≡ r.server)
        × ((limited now ip r).0.tokens ≡ r.tokens)
        × ((limited now ip r).0.lifetime ≡ r.lifetime)
  unfolding limited
  limited_same now ip r = elim (Option-cases r.limiter) [
    | inl e ↦ rw e (refl, refl, refl)
    | inr (l, e) ↦ rw e (refl, refl, refl)
  ]

  handle_ok :
      (now : ℕ) (ip : String) (body : Option EnrollRequest) (r : Registrar) (row : Node)
      → (handle_enroll parse_csr issue hash now ip body r).1 ≡ ok row
      → ((limited now ip r).1 ≡ true)
        × (handle_enroll parse_csr issue hash now ip body r
            ≡ take_request parse_csr issue hash now ip body (limited now ip r).0)
  unfolding handle_enroll
  handle_ok now ip body r row h = elim (Bool-cases (limited now ip r).1) [
    | inl e ↦ (e, rw e refl)
    | inr e ↦ absurd (ground arith)
  ]

pub enroll_ok :
    (parse_csr : String → Option Csr) (issue : ℕ → ℕ → String → Csr → Option Issued)
    (hash : String → String) (now : ℕ) (ip : String) (req : EnrollRequest) (r : Registrar)
    (row : Node)
    → (handle_enroll parse_csr issue hash now ip (some req) r).1 ≡ ok row
    → IsEnrolled parse_csr issue hash now ip req r
        (handle_enroll parse_csr issue hash now ip (some req) r).0
        row
enroll_ok parse_csr issue hash now ip req r row h =
    let (allowed, step) = handle_ok parse_csr issue hash now ip (some req) r row h in
    let (kept, had, life) = limited_same parse_csr issue hash now ip r in
    let h1 = subst (λ x. x.1 ≡ ok row) step h in
    let (tokens, held, step1) =
      take_ok parse_csr issue hash now ip req (limited now ip r).0 row h1 in
    let h2 = subst (λ x. x.1 ≡ ok row) step1 h1 in
    let (c, parsed, fresh, step2) =
      vetted_ok parse_csr issue hash now ip req tokens (parse_csr req.csr) (limited now ip r).0 row
        h2 in
    let h3 = subst (λ x. x.1 ≡ ok row) step2 h2 in
    let (accepted, step3) =
      spend_ok parse_csr issue hash now ip req tokens (limited now ip r).0 row h3 in
    let h4 = subst (λ x. x.1 ≡ ok row) step3 h3 in
    let (cert, signed, step4) =
      certify_ok parse_csr issue hash now ip req
        (after_spending parse_csr issue hash now req tokens (limited now ip r).0) row h4 in
    let (own, issued) =
      sign_csr_lem parse_csr issue hash now _ req.csr req.node_id cert c parsed signed in
    let r' = after_spending parse_csr issue hash now req tokens (limited now ip r).0 in
    let whole = step ∙ step1 ∙ step2 ∙ step3 ∙ step4 in
    let (spent, stored, answered) =
      registered_lem now (enrolling ip req.node_id cert) r' r.server row _ whole kept h in
    record {
      allowed = allowed;
      csr = c;
      parsed = parsed;
      own = own;
      unenrolled = subst (λ t. is_enrolled (lookup req.node_id t.store) ≡ false) kept fresh;
      tokens = tokens;
      held = sym had ∙ held;
      spent = spent;
      accepted = accepted;
      cert = cert;
      issued = subst (λ l. issue now l req.node_id c ≡ some cert) life issued;
      stored = stored;
      answered = answered;
    }

-- Enrolling is refused, or it admits the node, and then the address had an attempt left, the signing
-- request is that node's own, over a P-256 key, the row of the node held no certificate that is not
-- revoked, and the token's use is accepted for this node; the server differs only by the registration
-- of the issued certificate, whose row is the answer, and the token is spent.
pub handle_enroll-IsEnrolled :
    (parse_csr : String → Option Csr) (issue : ℕ → ℕ → String → Csr → Option Issued)
    (hash : String → String) (now : ℕ) (ip : String) (req : EnrollRequest) (r : Registrar)
    → ((e : Response) × ((handle_enroll parse_csr issue hash now ip (some req) r).1 ≡ err e))
      ⊎ ((row : Node) × ((handle_enroll parse_csr issue hash now ip (some req) r).1 ≡ ok row)
          × IsEnrolled parse_csr issue hash now ip req r
              (handle_enroll parse_csr issue hash now ip (some req) r).0
              row)
handle_enroll-IsEnrolled parse_csr issue hash now ip req r =
    elim (Result-cases (handle_enroll parse_csr issue hash now ip (some req) r).1) [
      | inl e ↦ inl e
      | inr (row, h) ↦ inr (row, h, enroll_ok parse_csr issue hash now ip req r row h)
    ]
