-- ===== src/Server/Harmless.antt =====
-- Error answers of the handlers of internal/server/server.go, one by one.
use houdry.Prelude.{
  ℕ, String, Bool, true, false, not, ◌&&◌, ◌≡◌, refl, ◌∙◌, inl, inr, Option, none, some,
  Option-cases, Bool-cases, str_eq, if◌then◌else◌, is_some, arith,
}
use houdry.Prelude.Maps.{get}
use houdry.Prelude.Results.{Result, ok, err, Result-cases}
use houdry.Nodes.{Node, Store, lookup, node_id, modify, set_drain}
use houdry.Nodes as Nodes
use houdry.Jobs.{Job, JobStore, create}
use houdry.Server.Certificates.{
  Server, Response, Certificate, Credentials, guarded, check_node_cert, authorized, denied,
  node_row, job_row, no_content,
}
use houdry.Server.Agents.{
  Call, JoinRequest, handle_join, handle_heartbeat, admit, take_beat, settle, drain_row, leave_row,
  read_join_request, read_node_id, named, beating, is_working, scheduled,
}
use houdry.Server.Work.{
  JobRequest, handle_submit_job, handle_admin_identity, queue_up, hand_out, claim_row, identify_row,
  may_work, updated,
}
use houdry.Server.Handout.{check-kept}

abbrev pub Same : Server → Server → Type 0
Same s t = (t.store ≡ s.store) × (t.jobs ≡ s.jobs)

-- An answer that is an error comes with the registry and the jobs as they were.
abbrev pub IsHarmless : Server → Server × Response → Type 0
IsHarmless s (t, denied code why) = Same s t
IsHarmless s (t, _) = Unit

same : (s t : Server) → Same s t → (r : Response) → IsHarmless s (t, r)
same s t h (denied code why) = h
same s t h (node_row n) = tt
same s t h (job_row j) = tt
same s t h (Response.left id) = tt
same s t h no_content = tt

if-IsHarmless :
    (s : Server) (b : Bool) (x y : Server × Response)
    → IsHarmless s x
    → IsHarmless s y
    → IsHarmless s (if b then x else y)
if-IsHarmless s true x y hx hy = hx
if-IsHarmless s false x y hx hy = hy

guarded-IsHarmless :
    (s : Server) (r : Server × Result Response String) (f : String → Server → Server × Response)
    → Same s r.0
    → ((id : String) (t : Server) → Same s t → IsHarmless s (f id t))
    → IsHarmless s (guarded r f)
guarded-IsHarmless s (t, err e) f h k = same s t h e
guarded-IsHarmless s (t, ok id) f h k = k id t h

modify-none :
    (f : Node → Node) (id : String) (s : Store) → (modify f id s).1 ≡ none → (modify f id s).0 ≡ s
unfolding modify
modify-none f id s h = elim (Option-cases (get id s.nodes)) [
  | inl e ↦ ground arith
  | inr (n, e) ↦ absurd (ground arith)
]

take_beat-IsHarmless :
    (call : Call) (req : JoinRequest) (s t : Server)
    → Same s t
    → IsHarmless s (take_beat call req t)
unfolding take_beat Nodes.heartbeat settle
take_beat-IsHarmless call req s t h =
    let row = beating call req in
    elim (Option-cases (Nodes.heartbeat call.now row t.store).1) [
      | inl e ↦
          rw (e, take_beat)
            ((modify-none (Nodes.beat call.now row) (node_id row) t.store e ∙ h.0, h.1))
      | inr (out, e) ↦ rw (e, take_beat) tt
    ]

pub drain_row-IsHarmless :
    (now : ℕ) (s : Server) (id : String) (t : Server) → Same s t → IsHarmless s (drain_row now id t)
unfolding drain_row set_drain
drain_row-IsHarmless now s id t h = elim (Option-cases (set_drain now id t.store).1) [
  | inl e ↦ rw (e, drain_row) ((modify-none (Nodes.drained now) id t.store e ∙ h.0, h.1))
  | inr (out, e) ↦ rw (e, drain_row) tt
]

pub leave_row-IsHarmless :
    (now : ℕ) (s : Server) (id : String) (t : Server) → Same s t → IsHarmless s (leave_row now id t)
unfolding leave_row
leave_row-IsHarmless now s id t h = elim (Option-cases (lookup id t.store)) [
  | inl e ↦ rw (e, leave_row) h
  | inr (n, e) ↦ rw (e, leave_row) (if-IsHarmless s (is_working n) _ _ h tt)
]

pub claim_row-IsHarmless :
    (now : ℕ) (s : Server) (id : String) (t : Server) → Same s t → IsHarmless s (claim_row now id t)
unfolding claim_row hand_out
claim_row-IsHarmless now s id t h = elim (Option-cases (lookup id t.store)) [
  | inl e ↦ rw (e, claim_row) h
  | inr (n, e) ↦ elim (Bool-cases (may_work n)) [
    | inr w ↦ rw (e, claim_row) (rw w tt)
    | inl w ↦
        rw (e, claim_row)
          (rw w (elim (Option-cases (houdry.Jobs.claim now id t.jobs).1) [
            | inl c ↦ rw (c, hand_out) tt
            | inr (j, c) ↦ rw (c, hand_out) tt
          ]))
  ]
]

updated-IsHarmless : (s t u : Server) (j : Job) → IsHarmless s (t, updated j u)
unfolding updated
updated-IsHarmless s t u j = go (houdry.Jobs.lookup j.id u.jobs)
  where
    go : (o : Option Job) → IsHarmless s (t, elim o [ none ↦ job_row j | some k ↦ job_row k ])
    go none = tt
    go (some k) = tt

queue_up-IsHarmless :
    (now : ℕ) (drawn job_type : String) (req : JobRequest) (s : Server)
    → IsHarmless s (queue_up now drawn job_type req s)
unfolding queue_up
queue_up-IsHarmless now drawn job_type req s =
    elim (Result-cases
      (create now drawn job_type req.node_id req.requirements req.payload s.jobs)) [
        | inl (r, e) ↦ rw (e, queue_up) ((refl, refl))
        | inr ((jobs, j), e) ↦
            rw (e, queue_up)
              (let after = scheduled (record s { jobs = jobs }) in
                updated-IsHarmless s after after j)
      ]

identify_row-IsHarmless :
    (identity : Nodes.Status.Identity) (id : String) (s : Server)
    → IsHarmless s (identify_row identity id s)
unfolding identify_row
identify_row-IsHarmless identity id s = elim (Option-cases (lookup id s.store)) [
  | inl e ↦ rw (e, identify_row) ((refl, refl))
  | inr (n, e) ↦ rw (e, identify_row) tt
]

pub beat-IsHarmless :
    (call : Call) (body : Option JoinRequest) (s : Server)
    → IsHarmless s (handle_heartbeat call body s)
unfolding handle_heartbeat
beat-IsHarmless call body s =
    guarded-IsHarmless s (check_node_cert true false call.peer s) _
      (check-kept true false call.peer s)
      λ id t h. elim (Result-cases (read_join_request call.now body)) [
        | inl (r, e) ↦ rw e (same s t h r)
        | inr (req, e) ↦ rw e (
            if-IsHarmless s
              (not (str_eq req.inventory.node_id "") && not (str_eq req.inventory.node_id id)) _ _ h
              (take_beat-IsHarmless call (named id req) s t h))
      ]

pub join-IsHarmless :
    (call : Call) (body : Option JoinRequest) (s : Server) → IsHarmless s (handle_join call body s)
unfolding handle_join admit
join-IsHarmless call body s =
    guarded-IsHarmless s (check_node_cert false true call.peer s) _
      (check-kept false true call.peer s)
      λ id t h. elim (Result-cases (read_join_request call.now body)) [
        | inl (r, e) ↦ rw e (same s t h r)
        | inr (req, e) ↦ rw e (
            if-IsHarmless s
              (not (str_eq req.inventory.node_id "") && not (str_eq req.inventory.node_id id)) _ _ h
              tt)
      ]

pub by_id-IsHarmless :
    (suspended : Bool) (peer : Option Certificate) (body : Option String) (s : Server)
    (f : String → Server → Server × Response)
    → ((id : String) (t : Server) → Same s t → IsHarmless s (f id t))
    → IsHarmless s (
        guarded (check_node_cert suspended false peer s) λ certified t. elim (read_node_id body) [
          | err r ↦ (t, r)
          | ok id ↦
              if not (str_eq id certified)
              then (t, denied 403 "node_id does not match certificate")
              else f id t
        ])
by_id-IsHarmless suspended peer body s f keeps =
    guarded-IsHarmless s (check_node_cert suspended false peer s) _
      (check-kept suspended false peer s)
      λ certified t h. elim (Result-cases (read_node_id body)) [
        | inl (r, e) ↦ rw e (same s t h r)
        | inr (id, e) ↦ rw e (if-IsHarmless s (not (str_eq id certified)) _ _ h (keeps id t h))
      ]

pub submit_job-IsHarmless :
    (now : ℕ) (drawn : String) (cred : Credentials) (body : Option JobRequest) (s : Server)
    → IsHarmless s (handle_submit_job now drawn cred body s)
unfolding handle_submit_job
submit_job-IsHarmless now drawn cred none s =
    if-IsHarmless s (not (authorized cred s)) _ _ (refl, refl) (refl, refl)
submit_job-IsHarmless now drawn cred (some req) s =
    if-IsHarmless s (not (authorized cred s)) _ _ (refl, refl)
      (if-IsHarmless s (not (str_eq req.node_id "") && not (is_some (lookup req.node_id s.store))) _
        _ (refl, refl) (queue_up-IsHarmless now drawn _ req s))

pub admin-IsHarmless :
    (identity : Nodes.Status.Identity) (cred : Credentials) (body : Option String) (s : Server)
    → IsHarmless s (handle_admin_identity identity cred body s)
unfolding handle_admin_identity
admin-IsHarmless identity cred body s =
    if-IsHarmless s (not (authorized cred s)) _ _ (refl, refl)
      (elim (Result-cases (read_node_id body)) [
        | inl (r, e) ↦ rw e (same s s (refl, refl) r)
        | inr (id, e) ↦ rw e (identify_row-IsHarmless identity id s)
      ])
