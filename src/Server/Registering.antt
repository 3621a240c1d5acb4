-- ===== src/Server/Registering.antt =====
-- What handleEnroll and handleRenew of internal/server/enroll.go leave of the server.
use houdry.Prelude.{
  ℕ, String, Bool, true, false, not, ◌||◌, ◌≡◌, refl, subst, ◌⊎◌, inl, inr, Option, none, some,
  Option-cases, str_eq, if◌then◌else◌,
}
use houdry.Prelude.Results.{Result, ok, err}
use houdry.Nodes.{Node, lookup, upsert}
use houdry.Enrollment as Tokens
use houdry.Server.Certificates.{Server, Response, check_node_cert}
use houdry.Server.Agents.{Call}
use houdry.Server.Enrolling.{
  Registrar, EnrollRequest, Csr, Issued, is_enrolled, limited, registered, sign_csr, certify,
  spend_token, vetted, take_request, handle_enroll, renew_row, renew_checked, handle_renew,
}

-- The server is as it was, and the answer is an error; or one row was registered.
abbrev pub IsRegistered : Server → Registrar × Result Response Node → Type 0
IsRegistered s out =
    ((out.0.server ≡ s) × ((e : Response) × (out.1 ≡ err e)))
    ⊎ ((now : ℕ) × (n : Node) × (out.0.server ≡ record s { store = (upsert now n s.store).0 })
        × (out.1 ≡ ok (upsert now n s.store).1))

if-IsRegistered :
    (s : Server) (b : Bool) (x y : Registrar × Result Response Node)
    → IsRegistered s x
    → IsRegistered s y
    → IsRegistered s (if b then x else y)
if-IsRegistered s true x y h k = h
if-IsRegistered s false x y h k = k

refused : (s : Server) (r : Registrar) (e : Response) → r.server ≡ s → IsRegistered s (r, err e)
refused s r e h = inl (h, (e, refl))

registered-IsRegistered :
    (s : Server) (now : ℕ) (n : Node) (r : Registrar)
    → r.server ≡ s
    → IsRegistered s (registered now n r)
unfolding registered
registered-IsRegistered s now n r h =
    subst (λ t. IsRegistered t (registered now n r)) h (inr (now, n, refl, refl))

module _ (parse_csr : String → Option Csr) (issue : ℕ → ℕ → String → Csr → Option Issued) where
  module _ (hash : String → String) (s : Server) where
    certify-IsRegistered :
        (now : ℕ) (ip : String) (req : EnrollRequest) (r : Registrar)
        → r.server ≡ s
        → IsRegistered s (certify parse_csr issue hash now ip req r)
    unfolding certify
    certify-IsRegistered now ip req r h =
        elim (Option-cases (sign_csr parse_csr issue now r.lifetime req.csr req.node_id)) [
          | inl e ↦ rw (e, certify) (refused s r _ h)
          | inr (cert, e) ↦ rw (e, certify) (registered-IsRegistered s now _ r h)
        ]

    spend-IsRegistered :
        (now : ℕ) (ip : String) (req : EnrollRequest) (tokens : Tokens.Store) (r : Registrar)
        → r.server ≡ s
        → IsRegistered s (spend_token parse_csr issue hash now ip req tokens r)
    unfolding spend_token
    spend-IsRegistered now ip req tokens r h =
        elim (Option-cases (Tokens.consume hash now req.token req.node_id tokens).1) [
          | inl e ↦
              rw (e, spend_token)
                (certify-IsRegistered now ip req
                  (record r {
                    tokens = some (Tokens.consume hash now req.token req.node_id tokens).0;
                  })
                  h)
          | inr (x, e) ↦
              rw (e, spend_token)
                (refused s
                  (record r {
                    tokens = some (Tokens.consume hash now req.token req.node_id tokens).0;
                  })
                  _ h)
        ]

    vetted-IsRegistered :
        (now : ℕ) (ip : String) (req : EnrollRequest) (tokens : Tokens.Store) (o : Option Csr)
        (r : Registrar)
        → r.server ≡ s
        → IsRegistered s (vetted parse_csr issue hash now ip req tokens o r)
    unfolding vetted
    vetted-IsRegistered now ip req tokens none r h = refused s r _ h
    vetted-IsRegistered now ip req tokens (some c) r h =
        if-IsRegistered s (not c.signed) _ _ (refused s r _ h) (
          if-IsRegistered s (not (str_eq c.common_name req.node_id)) _ _ (refused s r _ h) (
            if-IsRegistered s (is_enrolled (lookup req.node_id r.server.store)) _ _
              (refused s r _ h) (spend-IsRegistered now ip req tokens r h)))

    take-IsRegistered :
        (now : ℕ) (ip : String) (body : Option EnrollRequest) (r : Registrar)
        → r.server ≡ s
        → IsRegistered s (take_request parse_csr issue hash now ip body r)
    unfolding take_request
    take-IsRegistered now ip none r h = refused s r _ h
    take-IsRegistered now ip (some req) r h =
        if-IsRegistered s (str_eq req.node_id "" || str_eq req.csr "") _ _ (refused s r _ h) (
          if-IsRegistered s (not r.has_bundle) _ _ (refused s r _ h) (elim (Option-cases r.tokens) [
            | inl e ↦ rw e (refused s r _ h)
            | inr (tokens, e) ↦ rw e (vetted-IsRegistered now ip req tokens (parse_csr req.csr) r h)
          ]))

  limited-server : (now : ℕ) (ip : String) (r : Registrar) → (limited now ip r).0.server ≡ r.server
  unfolding limited
  limited-server now ip r = elim (Option-cases r.limiter) [
    | inl e ↦ rw e refl
    | inr (l, e) ↦ rw e refl
  ]

  pub enroll-IsRegistered :
      (hash : String → String) (now : ℕ) (ip : String) (body : Option EnrollRequest) (r : Registrar)
      → IsRegistered r.server (handle_enroll parse_csr issue hash now ip body r)
  unfolding handle_enroll
  enroll-IsRegistered hash now ip body r =
      if-IsRegistered r.server (not (limited now ip r).1) _ _
        (refused r.server (limited now ip r).0 _ (limited-server now ip r))
        (take-IsRegistered hash r.server now ip body (limited now ip r).0 (limited-server now ip r))

  renew_row-IsRegistered :
      (s : Server) (now : ℕ) (id csr : String) (r : Registrar)
      → r.server ≡ s
      → IsRegistered s (renew_row parse_csr issue now id csr r)
  unfolding renew_row
  renew_row-IsRegistered s now id csr r h =
      elim (Option-cases (sign_csr parse_csr issue now r.lifetime csr id)) [
        | inl e ↦ rw (e, renew_row) (refused s r _ h)
        | inr (cert, e) ↦ rw (e, renew_row) (registered-IsRegistered s now _ r h)
      ]

  checked-IsRegistered :
      (s : Server) (now : ℕ) (body : Option String) (r : Registrar) (c : Result Response String)
      → r.server ≡ s
      → IsRegistered s (renew_checked parse_csr issue now body r c)
  unfolding renew_checked
  checked-IsRegistered s now body r (err e) h = refused s r e h
  checked-IsRegistered s now none r (ok id) h = refused s r _ h
  checked-IsRegistered s now (some csr) r (ok id) h =
      if-IsRegistered s (str_eq csr "") _ _ (refused s r _ h)
        (renew_row-IsRegistered s now id csr r h)

  pub renew-IsRegistered :
      (call : Call) (body : Option String) (r : Registrar)
      → IsRegistered
          (check_node_cert true false call.peer r.server).0
          (handle_renew parse_csr issue call body r)
  unfolding handle_renew
  renew-IsRegistered call body r =
      let (server, c) = check_node_cert true false call.peer r.server in
      checked-IsRegistered server call.now body (record r { server = server }) c refl
