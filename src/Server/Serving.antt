-- ===== src/Server/Serving.antt =====
-- handleChatCompletions of internal/server/openai_chat.go: what an answer with content comes from.
use houdry.Prelude.{
  ℕ, zero, suc, String, Bool, true, false, List, [], ◌∷◌, Option, none, some, str_eq, ◌≡◌, ◌≢◌,
  refl, ap, subst, ◌∙◌, inl, inr, ◌⊎◌, arith, Bool-cases, Option-cases, eq_iff,
}
use houdry.Prelude.Int.{ℤ}
use houdry.Prelude.Maps.{Map, get}
use houdry.Prelude.Results.{ok, Result-cases}
use houdry.Resources.{Requirements}
use houdry.Jobs.{Job, JobStore, Json, create, new_job}
use houdry.Jobs as Queue
use houdry.Jobs.Store.{create-ok}
use houdry.Jobs.Status.{is_failed, is_succeeded}
use houdry.Jobs.Waiting.{
  WaitEnd, finished, missing, cancelled, exhausted, wait_job, look, has_outcome,
}
use houdry.Inference.{ToolCall}
use houdry.Routing.Scoring.{CatalogEntry}
use houdry.Server.Certificates.{Server, Credentials, authorized}
use houdry.Server.Chat.{ChatRequest, Plan, plan_chat, chat_requirements}
use houdry.Server.Answers.{
  ChatExtras, ChatAnswer, completed, streamed, text_of, payload_of, parse_tool_calls, deliver,
  answer_result, respond, execute_plan, handle_chat, build_completion_full,
}

-- What an answer delivers: its text and its tool calls.
unfoldable pub content_of : ChatAnswer → Option (String × List ToolCall)
content_of (completed c) = some (c.content, c.tool_calls)
content_of (streamed model content calls) = some (content, calls)
content_of ChatAnswer.unauthorized = none
content_of ChatAnswer.create_failed = none
content_of ChatAnswer.job_timeout = none
content_of ChatAnswer.wait_failed = none
content_of ChatAnswer.empty_response = none
content_of (ChatAnswer.refused e) = none
content_of (ChatAnswer.runtime_error e) = none

finished_injective : (x j : Job) → finished x ≡ finished j → x ≡ j
finished_injective x j e = cc

succeeded_if :
    (j : Job) → has_outcome j ≡ true → is_failed j.status ≡ false → is_succeeded j.status ≡ true
succeeded_if j o f = ground arith

-- A wait that ends with a job has seen it with an outcome.
wait_seen :
    (id : String) (seen : ℕ → JobStore) (ends : ℕ → Bool) (fuel k : ℕ) (j : Job)
    → wait_job id seen ends fuel k ≡ finished j
    → (n : ℕ) × (Queue.lookup id (seen n) ≡ some j) × (has_outcome j ≡ true)
unfolding wait_job look
wait_seen id seen ends zero k j h = cc
wait_seen id seen ends (suc fuel) k j h = elim (Option-cases (Queue.lookup id (seen k))) [
  | inl e ↦ absurd (ground arith)
  | inr (x, e) ↦ elim (Bool-cases (has_outcome x)) [
    | inl o ↦
        let same : x ≡ j = finished_injective x j (ground arith) in
        (k, e ∙ ap some same, subst (λ y. has_outcome y ≡ true) same o)
    | inr o ↦ elim (Bool-cases (ends k)) [
      | inl t ↦ absurd (ground arith)
      | inr t ↦ wait_seen id seen ends fuel (suc k) j (ground arith)
    ]
  ]
]

module _ (number : String → ℤ) (decode : Json → List ToolCall) (show : ℕ → String) where
  -- The text and the calls of a job's result.
  abbrev pub result_of : Job → String × List ToolCall
  result_of j =
      (text_of "text" j.result, parse_tool_calls number decode show (get "tool_calls" j.result))

  deliver_content :
      (req : ChatRequest) (stream : Bool) (r : Requirements) (m : Map Json) (content : String)
      (calls : List ToolCall)
      → content_of (deliver number decode show req stream r m content calls) ≡ some (content, calls)
  unfolding deliver content_of build_completion_full
  deliver_content req true r m content calls = refl
  deliver_content req false r m content calls = refl

  answer_content :
      (req : ChatRequest) (stream : Bool) (r : Requirements) (m : Map Json) (content : String)
      (calls : List ToolCall)
      → (content_of (answer_result number decode show req stream r m content calls) ≡ none)
        ⊎ ((content_of (answer_result number decode show req stream r m content calls)
              ≡ some (content, calls))
            × ((content ≢ "") ⊎ (calls ≢ [])))
  unfolding answer_result content_of
  answer_content req stream r m content [] = elim (Bool-cases (str_eq content "")) [
    | inl e ↦ inl (rw e refl)
    | inr e ↦ inr (
      rw e (deliver_content req stream r m content []),
      inl (λ same. ground (arith, eq_iff content "")),
    )
  ]
  answer_content req stream r m content (c ∷ cs) =
      inr (deliver_content req stream r m content (c ∷ cs), inr (λ e. cc))

  respond_content :
      (req : ChatRequest) (stream : Bool) (r : Requirements) (w : WaitEnd)
      → (content_of (respond number decode show req stream r w) ≡ none)
        ⊎ ((j : Job) × (w ≡ finished j)
            × (is_failed j.status ≡ false)
            × (content_of (respond number decode show req stream r w) ≡ some (result_of j))
            × (((result_of j).0 ≢ "") ⊎ ((result_of j).1 ≢ [])))
  unfolding respond content_of
  respond_content req stream r missing = inl refl
  respond_content req stream r (cancelled j) = inl refl
  respond_content req stream r exhausted = inl refl
  respond_content req stream r (finished j) = elim (Bool-cases (is_failed j.status)) [
    | inl e ↦ inl (rw e refl)
    | inr e ↦ elim (answer_content req stream r j.result (result_of j).0 (result_of j).1) [
      | inl a ↦ inl (rw e a)
      | inr (a, full) ↦ inr (j, refl, e, rw e a, full)
    ]
  ]

  -- Where an answer with content comes from: the plan of the request, and the job under the drawn id,
  -- which was seen as SUCCEEDED with a result that holds this content.
  pub record IsServed (drawn : String) (seen : ℕ → JobStore) (catalog : List CatalogEntry)
      (cred : Credentials) (req : ChatRequest) (s : Server) (content : String × List ToolCall)
      : Type 0 where
    pub allowed : authorized cred s ≡ true
    pub plan : Plan
    pub planned : plan_chat catalog req s ≡ ok plan
    pub job : Job
    pub at : ℕ
    pub held : Queue.lookup drawn (seen at) ≡ some job
    pub good : is_succeeded job.status ≡ true
    pub answered : content ≡ result_of job
    pub full : (content.0 ≢ "") ⊎ (content.1 ≢ [])

  new_id :
      (now : ℕ) (drawn node : String) (r p : Requirements) (payload : Map Json) (j : Job)
      → j ≡ new_job now drawn "inference" node p payload
      → j.id ≡ drawn
  unfolding new_job
  new_id now drawn node r p payload j e = ap (λ (x : Job). x.id) e

  module _ (now : ℕ) (drawn : String) (route : Plan → Json) (seen : ℕ → JobStore) (ends : ℕ → Bool)
      (fuel : ℕ) (catalog : List CatalogEntry) (cred : Credentials) (req : ChatRequest)
      (extras : ChatExtras) (s : Server) where
    -- The content of an answer comes from a served job, if there is any.
    abbrev pub Served : ChatAnswer → Type 0
    Served a =
        (content_of a ≡ none)
        ⊎ ((c : String × List ToolCall) × (content_of a ≡ some c)
            × IsServed drawn seen catalog cred req s c)

    waited :
        (plan : Plan) (r : Requirements) (id : String)
        → authorized cred s ≡ true
        → plan_chat catalog req s ≡ ok plan
        → id ≡ drawn
        → Served (respond number decode show req extras.stream r (wait_job id seen ends fuel 0))
    waited plan r id allowed planned same =
        elim (respond_content req extras.stream r (wait_job id seen ends fuel 0)) [
          | inl e ↦ inl e
          | inr (j, end, lucky, content, full) ↦
              let (n, held, o) = wait_seen id seen ends fuel 0 j end in
              inr (
                result_of j,
                content,
                record {
                  allowed = allowed;
                  plan = plan;
                  planned = planned;
                  job = j;
                  at = n;
                  held = subst (λ i. Queue.lookup i (seen n) ≡ some j) same held;
                  good = succeeded_if j o lucky;
                  answered = refl;
                  full = full;
                },
              )
        ]

    executed :
        (plan : Plan)
        → authorized cred s ≡ true
        → plan_chat catalog req s ≡ ok plan
        → Served
            (execute_plan number decode show now drawn route seen ends fuel req extras s plan).1
    unfolding execute_plan content_of
    executed plan allowed planned =
        let r = chat_requirements plan.model_name plan.model_tag plan.runtime plan.min_vram in
        let payload = payload_of (route plan) req extras plan r in
        elim (Result-cases (create now drawn "inference" plan.node r payload s.jobs)) [
          | inl (e, made) ↦ rw (made, execute_plan) (inl refl)
          | inr ((jobs, j), made) ↦
              let (p, is_j, is_t) =
                create-ok now drawn "inference" plan.node r payload s.jobs jobs j made in
              rw (made, execute_plan)
                (waited plan r j.id allowed planned (new_id now drawn plan.node r p payload j is_j))
        ]

    -- The answer to a chat request delivers no content, or it delivers the text and the tool calls of
    -- the result of a job that stood under the drawn id, as SUCCEEDED, at some look of the wait, and
    -- one of the two is not empty; the token was then right and a plan was made for the request.
    pub handle_chat-IsServed :
        Served
          (handle_chat number decode show now drawn route seen ends fuel catalog cred req extras
            s).1
    unfolding handle_chat content_of
    handle_chat-IsServed = elim (Bool-cases (authorized cred s)) [
      | inr a ↦ inl (rw a refl)
      | inl a ↦ elim (Result-cases (plan_chat catalog req s)) [
        | inl (e, made) ↦ inl (rw (a, made) refl)
        | inr (plan, made) ↦ rw (a, made) (executed plan a made)
      ]
    ]
