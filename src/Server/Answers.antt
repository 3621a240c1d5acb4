-- ===== src/Server/Answers.antt =====
-- handleChatCompletions of internal/server/openai_chat.go from its plan to its answer, with
-- BuildCompletionFull of internal/openaicompat/types.go. The id and the time of an answer are left
-- out. A wait out of fuel counts as one that ran out of time. JSON is a parameter: a number that a value holds, and the tool calls that it decodes to. A job
-- that is missing is answered as such, also if the context ends at that moment.
use houdry.Prelude.{
  ℕ, suc, String, Bool, not, ◌&&◌, List, [], ◌∷◌, ◌++◌, Option, none, some, str_eq, if◌then◌else◌,
}
use houdry.Prelude.Int.{ℤ, pos, ◌+ℤ◌}
use houdry.Prelude.Maps.{Map, get}
use houdry.Prelude.Results.{ok, err}
use houdry.Model.{ref}
use houdry.Resources.{Requirements, model_identity}
use houdry.Jobs.{JobStore, Json, text, other, create}
use houdry.Jobs.Status.{is_failed}
use houdry.Jobs.Waiting.{WaitEnd, finished, missing, cancelled, exhausted, wait_job}
use houdry.Inference.{ToolCall}
use houdry.Routing.Scoring.{CatalogEntry}
use houdry.OpenAi.{is_auto_model, messages_to_prompt}
use houdry.Server.Certificates.{Server, Credentials, authorized}
use houdry.Server.Agents.{scheduled}
use houdry.Server.Chat.{ChatRequest, Plan, Refusal, plan_chat, chat_requirements}

-- What else a request carries, as it goes into the job.
pub record ChatExtras : Type 0 where
  pub messages : Json
  pub tools : Json
  pub tool_choice : Option Json
  pub max_tokens : Option Json
  pub temperature : Option Json
  pub stream : Bool

pub record Completion : Type 0 where
  pub model : String
  pub content : String
  pub tool_calls : List ToolCall
  pub finish_reason : String
  pub prompt_tokens : ℤ
  pub completion_tokens : ℤ
  pub total_tokens : ℤ

pub data ChatAnswer : Type 0 where
  unauthorized create_failed job_timeout wait_failed empty_response : ChatAnswer
  refused : Refusal → ChatAnswer
  runtime_error : String → ChatAnswer
  completed : Completion → ChatAnswer
  streamed : String → String → List ToolCall → ChatAnswer

abbrev or_default : String → String → String
or_default s default = if str_eq s "" then default else s

abbrev optional : String → Option Json → Map Json
optional key none = []
optional key (some v) = (key, v) ∷ []

-- The value under a key, if it is a text, and otherwise an empty text.
unfoldable pub text_of : String → Map Json → String
text_of key m = elim (get key m) [ none ↦ "" | some v ↦ elim v [ text t ↦ t | other raw ↦ "" ] ]

unfoldable pub payload_of : Json → ChatRequest → ChatExtras → Plan → Requirements → Map Json
payload_of route req extras plan r =
    ("prompt", text (messages_to_prompt req.messages))
      ∷ ("model", text (ref (model_identity r)))
      ∷ ("route", route)
      ∷ ("source", text "openai.chat.completions")
      ∷ ("messages", extras.messages)
      ∷ (if plan.tools then ("tools", extras.tools) ∷ [] else [])
    ++ (if req.has_tools && not plan.tools then [] else optional "tool_choice" extras.tool_choice)
    ++ optional "max_tokens" extras.max_tokens
    ++ optional "temperature" extras.temperature

-- BuildCompletionFull
unfoldable pub build_completion_full : String → String → List ToolCall → String → ℤ → ℤ → Completion
build_completion_full model content calls reason prompt_tokens completion_tokens = record {
  model = or_default model "auto";
  content = content;
  tool_calls = calls;
  finish_reason = or_default reason (elim calls [ [] ↦ "stop" | c ∷ cs ↦ "tool_calls" ]);
  prompt_tokens = prompt_tokens;
  completion_tokens = completion_tokens;
  total_tokens = prompt_tokens +ℤ completion_tokens;
}

module _ (number : String → ℤ) (decode : Json → List ToolCall) (show : ℕ → String) where
  -- asInt
  unfoldable pub as_int : Option Json → ℤ
  as_int none = pos 0
  as_int (some (text t)) = pos 0
  as_int (some (other raw)) = number raw

  -- The loop of parseToolCalls; `show i` is "call_" and the number.
  unfoldable pub named_calls : ℕ → List ToolCall → List ToolCall
  named_calls i [] = []
  named_calls i (c ∷ cs) =
      record c { call_type = or_default c.call_type "function"; id = or_default c.id (show i) }
      ∷ named_calls (suc i) cs

  -- parseToolCalls
  unfoldable pub parse_tool_calls : Option Json → List ToolCall
  unfolding named_calls
  parse_tool_calls none = []
  parse_tool_calls (some v) = named_calls 0 (decode v)

  -- The answer for the text and the tool calls of a result.
  unfoldable pub deliver :
      ChatRequest → Bool → Requirements → Map Json → String → List ToolCall → ChatAnswer
  unfolding as_int text_of build_completion_full
  deliver req stream r result content calls =
      let resolved = or_default (text_of "model" result) (ref (model_identity r)) in
      let model = if is_auto_model req.model then resolved else req.model in
      let reason = or_default (text_of "finish_reason" result) "stop" in
      if stream
      then streamed model content calls
      else completed (
          build_completion_full model content calls
            (elim calls [ [] ↦ reason | c ∷ cs ↦ "tool_calls" ])
            (as_int (get "prompt_tokens" result)) (as_int (get "output_tokens" result)))

  unfoldable pub answer_result :
      ChatRequest → Bool → Requirements → Map Json → String → List ToolCall → ChatAnswer
  unfolding deliver
  answer_result req stream r result content [] =
      if str_eq content "" then empty_response else deliver req stream r result content []
  answer_result req stream r result content (c ∷ cs) = deliver req stream r result content (c ∷ cs)

  -- The handler from the end of the wait on.
  unfoldable pub respond : ChatRequest → Bool → Requirements → WaitEnd → ChatAnswer
  unfolding answer_result parse_tool_calls text_of
  respond req stream r missing = wait_failed
  respond req stream r (cancelled j) = job_timeout
  respond req stream r exhausted = job_timeout
  respond req stream r (finished j) =
      if is_failed j.status
      then runtime_error (or_default j.error "inference runtime failed")
      else answer_result req stream r j.result (text_of "text" j.result)
          (parse_tool_calls (get "tool_calls" j.result))

  -- The job of a plan: it is created, a scheduling pass is run, and the answer waits for it. `route`
  -- is the record of the routing, and `seen` what the store holds at each look.
  unfoldable pub execute_plan :
      ℕ
      → String
      → (Plan → Json)
      → (ℕ → JobStore)
      → (ℕ → Bool)
      → ℕ
      → ChatRequest
      → ChatExtras
      → Server
      → Plan
      → Server × ChatAnswer
  unfolding respond payload_of
  execute_plan now drawn route seen ends fuel req extras s plan =
      let r = chat_requirements plan.model_name plan.model_tag plan.runtime plan.min_vram in
      elim (create now drawn "inference" plan.node r (payload_of (route plan) req extras plan r)
        s.jobs) [
          | err e ↦ (s, create_failed)
          | ok (jobs, j) ↦ (
            scheduled (record s { jobs = jobs }),
            respond req extras.stream r (wait_job j.id seen ends fuel 0),
          )
        ]

  -- handleChatCompletions on a cluster with a worker.
  unfoldable pub handle_chat :
      ℕ
      → String
      → (Plan → Json)
      → (ℕ → JobStore)
      → (ℕ → Bool)
      → ℕ
      → List CatalogEntry
      → Credentials
      → ChatRequest
      → ChatExtras
      → Server
      → Server × ChatAnswer
  unfolding execute_plan
  handle_chat now drawn route seen ends fuel catalog cred req extras s =
      if not (authorized cred s) then (s, unauthorized) else elim (plan_chat catalog req s) [
        | err e ↦ (s, refused e)
        | ok plan ↦ execute_plan now drawn route seen ends fuel req extras s plan
      ]
