-- ===== src/Server/Submitting.antt =====
-- handleRoute of internal/server/server.go: the job that a prompt leaves behind.
use houdry.Prelude.{
  ℕ, String, Bool, true, false, not, ◌&&◌, ◌≡◌, refl, sym, ◌∙◌, ap, subst, ◌⊎◌, inl, inr, List,
  Option, none, some, Bool-cases, Option-cases, str_eq, arith,
}
use houdry.Prelude.Results.{ok, err, Result-cases}
use houdry.Text.{trim_space}
use houdry.Jobs.{Job}
use houdry.Jobs.Store.{IsJobStore}
use houdry.Routing.Scoring.{CatalogEntry, Candidate}
use houdry.Routing.Choosing.{Decision}
use houdry.Server.Certificates.{Server, Response, job_row, Credentials, authorized}
use houdry.Server.Work.{queue_up}
use houdry.Server.Views.{route_prompt_opts}
use houdry.Server.Prompts.{
  PromptRequest, RouteAnswer, preferring, job_request, with_job, execute_selected, handle_route,
}
use houdry.Server.Queueing.{IsSubmitted, queue_up-IsSubmitted}
use houdry.Server.Routed.{IsPreferred, IsRouted, preferring-selected, submitted-IsRouted}

module _ (encode : Decision → Candidate → String) where
  with_job-ok :
      (d e : Decision) (j : Job) (r : Server × Response)
      → (with_job encode d r).1 ≡ ok (record { decision = e; job = some j })
      → (r.1 ≡ job_row j) × ((with_job encode d r).0 ≡ r.0)
  unfolding with_job
  with_job-ok d e j (s, Response.job_row k) h = (cc, refl)
  with_job-ok d e j (s, Response.denied code why) h = cc
  with_job-ok d e j (s, Response.node_row n) h = cc
  with_job-ok d e j (s, Response.left id) h = cc
  with_job-ok d e j (s, Response.no_content) h = cc

  executed :
      (now : ℕ) (drawn : String) (req : PromptRequest) (d e : Decision) (s : Server) (j : Job)
      (deferred : Bool) (o : Option Candidate)
      → (execute_selected encode now drawn req d s deferred o).1
        ≡ ok (record { decision = e; job = some j })
      → (c : Candidate) × (o ≡ some c)
        × (deferred ≡ false)
        × (execute_selected encode now drawn req d s deferred o
            ≡ with_job encode d (queue_up now drawn "inference" (job_request encode req d c) s))
  unfolding execute_selected
  executed now drawn req d e s j false (some c) h = (c, refl, refl, refl)
  executed now drawn req d e s j false none h = cc
  executed now drawn req d e s j true (some c) h = cc
  executed now drawn req d e s j true none h = cc

  -- The decision that a prompt leads to.
  abbrev pub decided : List CatalogEntry → PromptRequest → Server → Decision
  decided catalog req s =
      preferring req.node_id
        (route_prompt_opts catalog req.prompt req.runtime req.require_present false false s)

  route_opened :
      (now : ℕ) (drawn : String) (cred : Credentials) (catalog : List CatalogEntry)
      (req : PromptRequest) (s : Server) (e : Decision) (j : Job)
      → (handle_route encode now drawn cred catalog (some req) s).1
        ≡ ok (record { decision = e; job = some j })
      → (authorized cred s ≡ true)
        × (req.execute ≡ true)
        × (handle_route encode now drawn cred catalog (some req) s
            ≡ execute_selected encode now drawn req
                (decided catalog req s)
                s
                (decided catalog req s).deferred
                (decided catalog req s).selected)
  unfolding handle_route
  route_opened now drawn cred catalog req s e j h =
      elim (Bool-cases (authorized cred s && not (str_eq (trim_space req.prompt) ""))) [
        | inr a ↦ absurd (ground arith)
        | inl a ↦ elim (Bool-cases req.execute) [
          | inr x ↦ absurd (ground arith)
          | inl x ↦ (ground arith, x, ground arith)
        ]
      ]

routed :
    (encode : Decision → Candidate → String) (now : ℕ) (drawn : String) (cred : Credentials)
    (catalog : List CatalogEntry) (req : PromptRequest) (s : Server) (e : Decision) (j : Job)
    → IsJobStore s.jobs
    → (handle_route encode now drawn cred catalog (some req) s).1
      ≡ ok (record { decision = e; job = some j })
    → (authorized cred s ≡ true)
      × (req.execute ≡ true)
      × ((decided encode catalog req s).deferred ≡ false)
      × ((c : Candidate) × ((decided encode catalog req s).selected ≡ some c)
          × IsSubmitted now drawn "inference"
              (job_request encode req (decided encode catalog req s) c)
              s
              (handle_route encode now drawn cred catalog (some req) s).0
              j)
routed encode now drawn cred catalog req s e j valid h =
    let d = decided encode catalog req s in
    let (a, x, opened) = route_opened encode now drawn cred catalog req s e j h in
    let (c, picked, sure, step) =
      executed encode now drawn req d e s j d.deferred d.selected
        (ap (λ y. y.1) (sym opened) ∙ h) in
    let whole = opened ∙ step in
    let queued = queue_up now drawn "inference" (job_request encode req d c) s in
    let (row, same) = with_job-ok encode d e j queued (ap (λ y. y.1) (sym whole) ∙ h) in
    (
      a,
      x,
      sure,
      (
        c,
        picked,
        subst (λ y. IsSubmitted now drawn "inference" (job_request encode req d c) s y j)
            (sym (ap (λ y. y.0) whole ∙ same))
            (queue_up-IsSubmitted now drawn "inference" (job_request encode req d c) s j valid row),
      ),
    )

decided-IsPreferred :
    (encode : Decision → Candidate → String) (catalog : List CatalogEntry) (req : PromptRequest)
    (s : Server) (c : Candidate)
    → (decided encode catalog req s).selected ≡ some c
    → IsPreferred catalog req s c
decided-IsPreferred encode catalog req s c h =
    let (x, selected, entry, node) = preferring-selected req.node_id _ c h in
    record { chosen = x; selected = selected; entry = entry; node = node }

-- A prompt is refused, or only routed, or its job is in the answer. Then it was to be executed with
-- the token, the decision was not deferred, and the router selected a candidate. The job is an
-- inference job with the prompt, for the candidate's model, runtime (unless the request names one)
-- and memory, preferring the node that the request names, or else the candidate's; and it is stored
-- under the drawn id as the scheduler leaves it.
pub handle_route-IsSubmitted :
    (encode : Decision → Candidate → String) (now : ℕ) (drawn : String) (cred : Credentials)
    (catalog : List CatalogEntry) (req : PromptRequest) (s : Server)
    → IsJobStore s.jobs
    → ((e : Response) × ((handle_route encode now drawn cred catalog (some req) s).1 ≡ err e))
      ⊎ ((a : RouteAnswer) × ((handle_route encode now drawn cred catalog (some req) s).1 ≡ ok a)
          × ((a.job ≡ none)
              ⊎ ((j : Job) × (a.job ≡ some j)
                  × (authorized cred s ≡ true)
                  × (req.execute ≡ true)
                  × ((decided encode catalog req s).deferred ≡ false)
                  × ((c : Candidate) × IsPreferred catalog req s c
                      × IsRouted drawn req c j
                      × IsSubmitted now drawn "inference"
                          (job_request encode req (decided encode catalog req s) c)
                          s
                          (handle_route encode now drawn cred catalog (some req) s).0
                          j))))
handle_route-IsSubmitted encode now drawn cred catalog req s valid =
    elim (Result-cases (handle_route encode now drawn cred catalog (some req) s).1) [
      | inl e ↦ inl e
      | inr (a, h) ↦ inr (
        a,
        h,
        elim (Option-cases a.job) [
          | inl e ↦ inl e
          | inr (j, e) ↦
              let whole : a ≡ record { decision = a.decision; job = some j } =
                ap (λ (o : Option Job). record { decision = a.decision; job = o }) e in
              let (auth, ex, sure, (c, picked, row)) =
                routed encode now drawn cred catalog req s a.decision j valid (h ∙ ap ok whole) in
              inr (
                j,
                e,
                auth,
                ex,
                sure,
                (
                  c,
                  decided-IsPreferred encode catalog req s c picked,
                  submitted-IsRouted encode now drawn req _ c s _ j row,
                  row,
                ),
              )
        ],
      )
    ]
