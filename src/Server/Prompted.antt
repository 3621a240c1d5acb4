-- ===== src/Server/Prompted.antt =====
-- What handleRoute of internal/server/server.go and handleChatCompletions of
-- internal/server/openai_chat.go leave of the registry and the job store.
use houdry.Prelude.{
  arith, ℕ, ◌∙◌, Option-cases, [], ◌∷◌, String, Bool, true, false, ◌≡◌, refl, ◌⊎◌, inl, inr, List,
  Option, none, some, Bool-cases, str_eq,
}
use houdry.Prelude.Int.{ℤ}
use houdry.Prelude.Results.{err, Result-cases}
use houdry.Text.{trim_space}
use houdry.Jobs.{Job, Json, JobStore, create}
use houdry.Jobs as Queue
use houdry.Jobs.Status.{is_failed}
use houdry.Jobs.Waiting.{WaitEnd, finished, missing, cancelled, exhausted, wait_job}
use houdry.Prelude.Maps.{Map, get}
use houdry.Resources.{Requirements}
use houdry.Server.Agents.{scheduled}
use houdry.Jobs.Invariant.{create-IsJobStore}
use houdry.Inference.{ToolCall}
use houdry.Routing.Scoring.{CatalogEntry, Candidate}
use houdry.Routing.Choosing.{Decision}
use houdry.Server.Certificates.{
  Server, Response, denied, node_row, job_row, left, no_content, Credentials, authorized,
}
use houdry.Server.Parts.{IsServer, scheduled-IsServer, queue_up-IsServer}
use houdry.Server.Work.{JobRequest, queue_up, updated}
use houdry.Server.Prompts.{PromptRequest, job_request, with_job, execute_selected, handle_route}
use houdry.Server.Chat.{ChatRequest, Plan, plan_chat, chat_requirements}
use houdry.Server.Answers.{
  ChatExtras, ChatAnswer, unauthorized, create_failed, refused, job_timeout, wait_failed,
  empty_response, runtime_error, completed, streamed, payload_of, respond, answer_result, deliver,
  text_of, parse_tool_calls, execute_plan, handle_chat,
}

-- A submission is answered with its job, or it leaves the server as it was.
updated_job : (j : Job) (s : Server) → (k : Job) × (updated j s ≡ job_row k)
unfolding updated
updated_job j s = elim (Option-cases (Queue.lookup j.id s.jobs)) [
  | inl e ↦ (j, rw (e, updated) refl)
  | inr (k, e) ↦ (k, rw (e, updated) refl)
]

queue_up_cases :
    (now : ℕ) (drawn job_type : String) (req : JobRequest) (s : Server)
    → ((queue_up now drawn job_type req s).0 ≡ s)
      ⊎ ((j : Job) × ((queue_up now drawn job_type req s).1 ≡ job_row j))
unfolding queue_up
queue_up_cases now drawn job_type req s =
    elim (Result-cases
      (create now drawn job_type req.node_id req.requirements req.payload s.jobs)) [
        | inl (e, made) ↦ inl (rw (made, queue_up) refl)
        | inr ((jobs, j), made) ↦
            inr (rw (made, queue_up) (updated_job j (scheduled (record s { jobs = jobs }))))
      ]

module _ (encode : Decision → Candidate → String) where
  with_job-server : (d : Decision) (out : Server × Response) → (with_job encode d out).0 ≡ out.0
  unfolding with_job
  with_job-server d (s, denied code why) = refl
  with_job-server d (s, node_row n) = refl
  with_job-server d (s, job_row j) = refl
  with_job-server d (s, left id) = refl
  with_job-server d (s, no_content) = refl

  execute-IsServer :
      (now : ℕ) (drawn : String) (req : PromptRequest) (d : Decision) (s : Server) (deferred : Bool)
      (o : Option Candidate)
      → IsServer s
      → IsServer (execute_selected encode now drawn req d s deferred o).0
  unfolding execute_selected
  execute-IsServer now drawn req d s false (some c) h =
      rw (with_job-server d (queue_up now drawn "inference" (job_request encode req d c) s))
        (queue_up-IsServer now drawn "inference" (job_request encode req d c) s h)
  execute-IsServer now drawn req d s false none h = h
  execute-IsServer now drawn req d s true (some c) h = h
  execute-IsServer now drawn req d s true none h = h

  pub route-IsServer :
      (now : ℕ) (drawn : String) (cred : Credentials) (catalog : List CatalogEntry)
      (body : Option PromptRequest) (s : Server)
      → IsServer s
      → IsServer (handle_route encode now drawn cred catalog body s).0
  unfolding handle_route
  route-IsServer now drawn cred catalog none s h = h
  route-IsServer now drawn cred catalog (some req) s h = elim (Bool-cases (authorized cred s)) [
    | inr a ↦ rw a h
    | inl a ↦ elim (Bool-cases (str_eq (trim_space req.prompt) "")) [
      | inl b ↦ rw (a, b) h
      | inr b ↦ elim (Bool-cases req.execute) [
        | inr x ↦ rw (a, b, x) h
        | inl x ↦ rw (a, b, x) (execute-IsServer now drawn req _ s _ _ h)
      ]
    ]
  ]

  with_job_cases :
      (d : Decision) (s : Server) (out : Server × Response) (e : Response)
      → (out.0 ≡ s) ⊎ ((j : Job) × (out.1 ≡ job_row j))
      → (with_job encode d out).1 ≡ err e
      → (with_job encode d out).0 ≡ s
  unfolding with_job
  with_job_cases d s out e (inl same) h = with_job-server d out ∙ same
  with_job_cases d s (t, denied code why) e (inr (j, row)) h = cc
  with_job_cases d s (t, node_row n) e (inr (j, row)) h = cc
  with_job_cases d s (t, job_row k) e (inr (j, row)) h = cc
  with_job_cases d s (t, left id) e (inr (j, row)) h = cc
  with_job_cases d s (t, no_content) e (inr (j, row)) h = cc

  execute_refused :
      (now : ℕ) (drawn : String) (req : PromptRequest) (d : Decision) (s : Server) (deferred : Bool)
      (o : Option Candidate) (e : Response)
      → (execute_selected encode now drawn req d s deferred o).1 ≡ err e
      → (execute_selected encode now drawn req d s deferred o).0 ≡ s
  unfolding execute_selected
  execute_refused now drawn req d s false (some c) e h =
      with_job_cases d s (queue_up now drawn "inference" (job_request encode req d c) s) e
        (queue_up_cases now drawn "inference" (job_request encode req d c) s) h
  execute_refused now drawn req d s false none e h = refl
  execute_refused now drawn req d s true (some c) e h = refl
  execute_refused now drawn req d s true none e h = refl

  pub route_refused :
      (now : ℕ) (drawn : String) (cred : Credentials) (catalog : List CatalogEntry)
      (body : Option PromptRequest) (s : Server) (e : Response)
      → (handle_route encode now drawn cred catalog body s).1 ≡ err e
      → (handle_route encode now drawn cred catalog body s).0 ≡ s
  unfolding handle_route
  route_refused now drawn cred catalog none s e h = refl
  route_refused now drawn cred catalog (some req) s e h = elim (Bool-cases (authorized cred s)) [
    | inr a ↦ rw a refl
    | inl a ↦ elim (Bool-cases (str_eq (trim_space req.prompt) "")) [
      | inl b ↦ rw (a, b) refl
      | inr b ↦ elim (Bool-cases req.execute) [
        | inr x ↦ rw (a, b, x) refl
        | inl x ↦ rw (a, b, x) (execute_refused now drawn req _ s _ _ e (rw (a, b, x) at h))
      ]
    ]
  ]

-- A chat request that is refused before its job is created.
abbrev pub is_refused : ChatAnswer → Bool
is_refused unauthorized = true
is_refused create_failed = true
is_refused (refused e) = true
is_refused job_timeout = false
is_refused wait_failed = false
is_refused empty_response = false
is_refused (runtime_error why) = false
is_refused (completed c) = false
is_refused (streamed model content calls) = false

module _ (number : String → ℤ) (decode : Json → List ToolCall) (show : ℕ → String) where
  pub chat-IsServer :
      (now : ℕ) (drawn : String) (route : Plan → Json) (seen : ℕ → JobStore) (ends : ℕ → Bool)
      (fuel : ℕ) (catalog : List CatalogEntry) (cred : Credentials) (req : ChatRequest)
      (extras : ChatExtras) (s : Server)
      → IsServer s
      → IsServer
          (handle_chat number decode show now drawn route seen ends fuel catalog cred req extras
            s).0
  unfolding handle_chat execute_plan
  chat-IsServer now drawn route seen ends fuel catalog cred req extras s h =
      elim (Bool-cases (authorized cred s)) [
        | inr a ↦ rw a h
        | inl a ↦ elim (Result-cases (plan_chat catalog req s)) [
          | inl (e, made) ↦ rw (a, made) h
          | inr (plan, planned) ↦
              let r = chat_requirements plan.model_name plan.model_tag plan.runtime plan.min_vram in
              let payload = payload_of (route plan) req extras plan r in
              elim (Result-cases (create now drawn "inference" plan.node r payload s.jobs)) [
                | inl (e, made) ↦ rw (a, planned) (rw (made, execute_plan) h)
                | inr ((jobs, j), made) ↦
                    rw (a, planned)
                      (rw (made, execute_plan)
                        (scheduled-IsServer (record s { jobs = jobs })
                          (record {
                            rows = h.rows;
                            queue =
                                create-IsJobStore now drawn "inference" plan.node r payload s.jobs
                                  jobs j made h.queue;
                          })))
              ]
        ]
      ]

  deliver-is_refused :
      (req : ChatRequest) (stream : Bool) (r : Requirements) (m : Map Json) (content : String)
      (calls : List ToolCall)
      → is_refused (deliver number decode show req stream r m content calls) ≡ false
  unfolding deliver
  deliver-is_refused req true r m content calls = refl
  deliver-is_refused req false r m content calls = refl

  result-is_refused :
      (req : ChatRequest) (stream : Bool) (r : Requirements) (m : Map Json) (content : String)
      (calls : List ToolCall)
      → is_refused (answer_result number decode show req stream r m content calls) ≡ false
  unfolding answer_result
  result-is_refused req stream r m content [] = elim (Bool-cases (str_eq content "")) [
    | inl e ↦ rw e refl
    | inr e ↦ rw e (deliver-is_refused req stream r m content [])
  ]
  result-is_refused req stream r m content (c ∷ cs) =
      deliver-is_refused req stream r m content (c ∷ cs)

  respond-is_refused :
      (req : ChatRequest) (stream : Bool) (r : Requirements) (w : WaitEnd)
      → is_refused (respond number decode show req stream r w) ≡ false
  unfolding respond
  respond-is_refused req stream r missing = refl
  respond-is_refused req stream r (cancelled j) = refl
  respond-is_refused req stream r exhausted = refl
  respond-is_refused req stream r (finished j) = elim (Bool-cases (is_failed j.status)) [
    | inl e ↦ rw e refl
    | inr e ↦ rw e (
        result-is_refused req stream r j.result (text_of "text" j.result)
          (parse_tool_calls number decode show (get "tool_calls" j.result)))
  ]

  execute_plan_refused :
      (now : ℕ) (drawn : String) (route : Plan → Json) (seen : ℕ → JobStore) (ends : ℕ → Bool)
      (fuel : ℕ) (req : ChatRequest) (extras : ChatExtras) (s : Server) (plan : Plan)
      → is_refused
          (execute_plan number decode show now drawn route seen ends fuel req extras s plan).1
        ≡ true
      → (execute_plan number decode show now drawn route seen ends fuel req extras s plan).0 ≡ s
  unfolding execute_plan
  execute_plan_refused now drawn route seen ends fuel req extras s plan h =
      let r = chat_requirements plan.model_name plan.model_tag plan.runtime plan.min_vram in
      let payload = payload_of (route plan) req extras plan r in
      elim (Result-cases (create now drawn "inference" plan.node r payload s.jobs)) [
        | inl (e, made) ↦ rw (made, execute_plan) refl
        | inr ((jobs, j), made) ↦
            let kept = respond-is_refused req extras.stream r (wait_job j.id seen ends fuel 0) in
            absurd (ground (arith, kept, rw (made, execute_plan) at h))
      ]

  pub chat_refused :
      (now : ℕ) (drawn : String) (route : Plan → Json) (seen : ℕ → JobStore) (ends : ℕ → Bool)
      (fuel : ℕ) (catalog : List CatalogEntry) (cred : Credentials) (req : ChatRequest)
      (extras : ChatExtras) (s : Server)
      → is_refused
          (handle_chat number decode show now drawn route seen ends fuel catalog cred req extras
            s).1
        ≡ true
      → (handle_chat number decode show now drawn route seen ends fuel catalog cred req extras s).0
        ≡ s
  unfolding handle_chat
  chat_refused now drawn route seen ends fuel catalog cred req extras s h =
      elim (Bool-cases (authorized cred s)) [
        | inr a ↦ rw a refl
        | inl a ↦ elim (Result-cases (plan_chat catalog req s)) [
          | inl (e, made) ↦ rw (a, made) refl
          | inr (plan, made) ↦
              rw (a, made)
                (execute_plan_refused now drawn route seen ends fuel req extras s plan
                  (rw (a, made) at h))
        ]
      ]
