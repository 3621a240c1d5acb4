-- ===== src/Inference/Compact.antt =====
-- internal/modelruntime/compact.go, and shouldCompact of ollama.go. A length counts characters, which
-- are bytes in ASCII text.
use houdry.Prelude.{
  ℕ, suc, zero, ◌+◌, String, Bool, true, false, not, ◌&&◌, ◌||◌, List, [], ◌∷◌, Option, none, some,
  str_eq, ltb, leb, if◌then◌else◌, length, map,
}
use houdry.Prelude.Int.{ℤ, pos, ltb_ℤ}
use houdry.Text.{append, codes, lower, trim_space, equal_fold, contains_any}
use houdry.Inference.{ChatMessage, InferRequest}

-- len(s)
abbrev pub text_length : String → ℕ
text_length String.[] = 0
text_length (String.◌∷◌ c s) = suc (text_length s)

-- s[:n]
abbrev pub text_take : ℕ → String → String
text_take n String.[] = String.[]
text_take zero (String.◌∷◌ c s) = String.[]
text_take (suc n) (String.◌∷◌ c s) = String.◌∷◌ c (text_take n s)

-- slowRuntimeSystemChars
abbrev pub system_chars : ℕ
system_chars = 4_000

-- slowRuntimeNumCtx
abbrev pub slow_num_ctx : ℕ
slow_num_ctx = 4_096

abbrev pub cut_note : String
cut_note = "\n[truncated for local CPU inference]"

unfoldable pub cut : ℕ → String → String
cut n s = if ltb n (text_length s) then append (text_take n s) cut_note else s

unfoldable pub cut_message : ℕ → ChatMessage → ChatMessage
unfolding cut
cut_message n m = record m {
  content = if equal_fold m.role "system" then cut n m.content else m.content;
}

-- lastUserText: the first hit from the end.
unfoldable pub last_user_text : List ChatMessage → String
last_user_text [] = ""
last_user_text (m ∷ ms) =
    let rest = last_user_text ms in
    if not (str_eq rest "")
    then rest
    else if equal_fold m.role "user" && not (str_eq (trim_space m.content) "")
    then m.content
    else ""

-- keepToolsOnSlowRuntime
unfoldable pub keep_tools_on_slow_runtime : String → String → Bool
keep_tools_on_slow_runtime user prompt =
    contains_any (lower (codes (append user (append "\n" prompt)))) (
      "implement " ∷ "refactor" ∷ "debug " ∷ "unit test" ∷ "codebase" ∷ "```" ∷ ".py"
      ∷ "write a function" ∷ "write a program" ∷ "fix this code" ∷ "typescript" ∷ "golang"
      ∷ "stack trace" ∷ [])

unfoldable pub slow_ctx : ℤ → ℤ
slow_ctx n = if not (ltb_ℤ (pos 0) n) || ltb_ℤ (pos slow_num_ctx) n then pos slow_num_ctx else n

-- compactSlowInference, for the number of characters that are kept.
unfoldable pub compact_to : ℕ → InferRequest → InferRequest
unfolding cut cut_message last_user_text keep_tools_on_slow_runtime slow_ctx
compact_to n req =
    let messages = map (cut_message n) req.messages in
    let prompt = cut n req.prompt in
    let keeps = keep_tools_on_slow_runtime (last_user_text messages) prompt in
    record req {
      messages = messages;
      prompt = prompt;
      tools = if keeps then req.tools else [];
      tool_choice = if keeps then req.tool_choice else none;
      options = record req.options { num_ctx = slow_ctx req.options.num_ctx };
    }

-- compactSlowInference
unfoldable pub compact_slow_inference : InferRequest → InferRequest
unfolding compact_to
compact_slow_inference req = compact_to system_chars req

content_length : List ChatMessage → ℕ
content_length [] = 0
content_length (m ∷ ms) = text_length m.content + content_length ms

-- hugeAgentDump
unfoldable pub huge_agent_dump : InferRequest → Bool
unfolding content_length
huge_agent_dump req =
    leb 8 (length req.tools) || leb 16_000 (text_length req.prompt + content_length req.messages)

-- inferenceOnCPU, from the memory on the device that /api/ps gives for each loaded model; a size that
-- is not positive counts as 0, and an answer that cannot be read is missing.
unfoldable pub inference_on_cpu : Option (List ℕ) → Bool
inference_on_cpu none = false
inference_on_cpu (some []) = false
inference_on_cpu (some (v ∷ vs)) = all_zero (v ∷ vs)
  where
    all_zero : List ℕ → Bool
    all_zero [] = true
    all_zero (v ∷ vs) = not (ltb 0 v) && all_zero vs

largest : List ℕ → ℕ
largest [] = 0
largest (v ∷ vs) = let rest = largest vs in if ltb rest v then v else rest

-- loadedVRAM
unfoldable pub loaded_vram : Option (List ℕ) → ℕ
unfolding largest
loaded_vram none = 0
loaded_vram (some vs) = largest vs

-- shouldCompact, with what its two calls of /api/ps answer.
unfoldable pub should_compact : Option (List ℕ) → Option (List ℕ) → InferRequest → Bool
unfolding huge_agent_dump inference_on_cpu loaded_vram
should_compact first second req =
    if huge_agent_dump req
    then true
    else if ltb 0 (loaded_vram first)
    then false
    else inference_on_cpu second
