-- ===== src/Tests/Chats.antt =====
-- The theorem on chat requests at the cluster of Data.
use houdry.Prelude.{ℕ, String, Bool, false, true, List, [], ◌∷◌, none}
use houdry.Prelude.Int.{ℤ, pos}
use houdry.Jobs.{Json, JobStore, text, other}
use houdry.Inference.{ToolCall}
use houdry.OpenAi.{Content}
use houdry.Server.Certificates.{Credentials}
use houdry.Server.Chat.{ChatRequest, Plan}
use houdry.Server.Answers.{ChatExtras, handle_chat}
use houdry.Server.Serving.{Served, handle_chat-IsServed}
use houdry.Tests.Data.{server, job_with}
use houdry.Jobs.Status.{JobStatus}

abbrev zero_of : String → ℤ
zero_of raw = pos 0

abbrev no_calls : Json → List ToolCall
no_calls v = []

abbrev call_name : ℕ → String
call_name i = "call"

abbrev bare_route : Plan → Json
bare_route p = other "{}"

-- The job of the request has succeeded with an answer at every look.
abbrev done : ℕ → JobStore
done k = record {
  jobs =
      (
        "j9",
        record (job_with "j9" JobStatus.succeeded "n1" 9) { result = ("text", text "hello") ∷ [] },
      )
      ∷ [];
  disk = none;
  writable = true;
}

abbrev never : ℕ → Bool
never k = false

abbrev token : Credentials
token = record { houdry_token = "secret"; authorization = "" }

abbrev chat : ChatRequest
chat = record {
  model = "llama:8b";
  messages = record { role = "user"; content = Content.text "hello"; has_tool_calls = false } ∷ [];
  has_tools = false;
}

abbrev extras : ChatExtras
extras = record {
  messages = other "[]";
  tools = other "[]";
  tool_choice = none;
  max_tokens = none;
  temperature = none;
  stream = false;
}

handle_chat-IsServed_example :
    Served zero_of no_calls call_name 9 "j9" bare_route done never 3 [] token chat extras server
      (handle_chat zero_of no_calls call_name 9 "j9" bare_route done never 3 [] token chat extras
        server).1
handle_chat-IsServed_example =
    handle_chat-IsServed zero_of no_calls call_name 9 "j9" bare_route done never 3 [] token chat
      extras server
