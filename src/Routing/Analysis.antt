-- ===== src/Routing/Analysis.antt =====
-- Analyze of internal/routing/analyze.go. The labels of the signals and the hints are text for people
-- and are left out; their weights are kept.
use houdry.Prelude.{
  ℕ, suc, ◌+◌, String, Bool, false, not, ◌&&◌, ◌||◌, List, [], ◌∷◌, ◌++◌, leb, ltb, ◌==◌,
  if◌then◌else◌, any, count_if,
}
use houdry.Text.{
  codes, lower, is_space, trim_space, contains, contains_any, trim_right_by, has_suffix,
}
use houdry.Routing.Scoring.{Modality, Complexity, TaskProfile, has_cap, is_low}

-- A signal: its weight, and whether the prompt shows it.
pub record Cue : Type 0 where
  pub weight : ℕ
  pub found : Bool

abbrev cue : ℕ → Bool → Cue
cue w b = record { weight = w; found = b }

-- What the signals that were found add to a score.
unfoldable pub points : List Cue → ℕ
points [] = 0
points (c ∷ cs) = (if c.found then c.weight else 0) + points cs

unfoldable pub any_found : List Cue → Bool
any_found cs = any (λ (c : Cue). c.found) cs

-- wordCount; the flag is whether a word has begun.
unfoldable pub word_count : Bool → List ℕ → ℕ
word_count inside [] = 0
word_count inside (c ∷ s) =
    word_count (not (is_space c)) s + (if not (is_space c) && not inside then 1 else 0)

-- appendCap
unfoldable pub append_cap : List String → String → List String
append_cap caps c = if has_cap caps c then caps else caps ++ c ∷ []

-- complexityFor
unfoldable pub complexity_for : ℕ → Complexity
complexity_for score =
    if leb 60 score
    then Complexity.high
    else if leb 20 score
    then Complexity.medium
    else Complexity.low

-- clampScore, for scores that are not negative
unfoldable pub clamp_score : ℕ → ℕ
clamp_score score = if ltb 100 score then 100 else score

-- Pictures to look at.
unfoldable pub asks_for_vision : List ℕ → Bool
asks_for_vision text = contains_any text (
    "ocr" ∷ "scanned pdf" ∷ "scan this" ∷ "screenshot" ∷ "image of" ∷ "picture of" ∷ "photo of"
    ∷ "this drawing" ∷ "p&id" ∷ [])

unfoldable pub asks_for_document : List ℕ → Bool
asks_for_document text =
    contains_any text (".pdf" ∷ "pdf document" ∷ "invoice" ∷ "form fields" ∷ [])

-- The signals of code; a fence is looked for in the prompt as it stands.
unfoldable pub code_cues : List ℕ → List ℕ → List Cue
code_cues prompt text =
    cue 25 (contains prompt (codes "```"))
    ∷ cue 25 (
        contains_any text (
          "stack trace" ∷ "traceback" ∷ "compile error" ∷ "segfault" ∷ "exception" ∷ "panic:" ∷ []))
    ∷ cue 15 (
        contains_any text (
          "implement " ∷ "write a program" ∷ "write a function" ∷ "fix this code" ∷ "refactor"
          ∷ "unit test" ∷ "debug " ∷ []))
    ∷ cue 12 (
        contains_any text (
          "python" ∷ "golang" ∷ " go " ∷ "typescript" ∷ "javascript" ∷ "rust" ∷ "c++" ∷ "java "
          ∷ "sql" ∷ []))
    ∷ cue 12 (
        contains_any text
          ("pull request" ∷ "codebase" ∷ "func " ∷ "function " ∷ "class " ∷ "regex" ∷ []))
    ∷ []

-- The signals of reasoning, with the two that follow from others.
unfoldable pub reasoning_cues : ℕ → List ℕ → List Cue
reasoning_cues words text =
    let proof =
      contains_any text
        ("prove " ∷ "derive " ∷ "theorem" ∷ "induction" ∷ "irrational" ∷ "contradiction" ∷ []) in
    let steps = contains_any text (
      "step by step" ∷ "step-by-step" ∷ "chain of thought" ∷ "show your work" ∷ "show the steps"
      ∷ []) in
    let comparison = contains_any text (
      "compare" ∷ "trade-off" ∷ "tradeoff" ∷ "evaluate" ∷ "pros and cons" ∷ "which is better"
      ∷ []) in
    let explanation =
      contains_any text (
        "explain why" ∷ "explain how" ∷ "why does" ∷ "analyze" ∷ "design " ∷ "architecture" ∷ []) in
    cue 45 (
      contains_any text (
        "research" ∷ "deep dive" ∷ "deep-dive" ∷ "in-depth" ∷ "in depth" ∷ "detailed analysis"
        ∷ "comprehensive" ∷ "thorough" ∷ "investigate" ∷ "deep analysis" ∷ "literature"
        ∷ "state of the art" ∷ "feasibility" ∷ "detailed report" ∷ "white paper" ∷ "root cause"
        ∷ []))
    ∷ cue 35 proof
    ∷ cue 18 steps
    ∷ cue 15 comparison
    ∷ cue 12 explanation
    ∷ cue 15 (
        contains_any text
          ("calculate" ∷ "compute " ∷ "solve " ∷ "equation" ∷ "how many" ∷ "optimi" ∷ []))
    ∷ cue 15 (proof && steps)
    ∷ cue 10 ((comparison || explanation) && ltb 15 words)
    ∷ []

unfoldable pub is_interrogative : List ℕ → Bool
is_interrogative text =
    has_suffix (trim_right_by (λ c. c == b' ' || c == b'.' || c == b'!') text) (codes "?")
    || contains_any text ("what " ∷ "how " ∷ "why " ∷ "when " ∷ "which " ∷ "who " ∷ "where " ∷ [])

-- The signals of a request, of structured output, of several steps and of length.
unfoldable pub request_cues : ℕ → ℕ → List ℕ → List Cue
request_cues words lines text =
    let is_long = ltb 400 words || ltb 40 lines in
    let is_substantial = ltb 150 words || ltb 15 lines in
    cue 20 (is_interrogative text && leb 4 words)
    ∷ cue 20 (
        contains_any text (
          "write " ∷ "create " ∷ "generate " ∷ "draft " ∷ "summarize" ∷ "summarise" ∷ "translate"
          ∷ "list the" ∷ "make a" ∷ "give me a" ∷ "explain" ∷ []))
    ∷ cue 12 (
        contains_any text
          ("story" ∷ "poem" ∷ "essay" ∷ "email" ∷ "letter" ∷ "slogan" ∷ "speech" ∷ []))
    ∷ cue 12 (contains_any text (" json" ∷ "json " ∷ "yaml" ∷ "schema" ∷ "csv" ∷ []))
    ∷ cue 8 (contains_any text ("as a table" ∷ "in a table" ∷ "markdown table" ∷ []))
    ∷ cue 10 (
        contains_any text ("first," ∷ "then " ∷ "after that" ∷ "finally," ∷ "1." ∷ "step 1" ∷ [])
        && ltb 25 words)
    ∷ cue 30 is_long
    ∷ cue 18 (not is_long && is_substantial)
    ∷ cue 8 (not is_long && not is_substantial && ltb 60 words)
    ∷ []

unfoldable pub is_greeting : List ℕ → Bool
is_greeting text =
    contains_any text
      ("hello" ∷ "hi" ∷ "hey" ∷ "ping" ∷ "thanks" ∷ "one sentence" ∷ "one short" ∷ "say " ∷ [])

-- A short prompt with few points that greets, or has none.
unfoldable pub is_trivial : ℕ → List ℕ → ℕ → Bool
is_trivial words text score = leb words 12 && leb score 20 && (is_greeting text || score == 0)

-- The two early returns, with the 45 points that they add.
unfoldable pub pipeline : Modality → List String → TaskProfile
unfolding clamp_score complexity_for
pipeline m caps = record {
  modality = m;
  complexity = complexity_for (clamp_score 45);
  capabilities = caps;
  score = clamp_score 45;
}

-- The end of Analyze, from the score before it is clamped.
unfoldable pub graded : Modality → List String → ℕ → TaskProfile
unfolding clamp_score complexity_for append_cap
graded m caps score =
    let c = complexity_for (clamp_score score) in
    record {
      modality = m;
      complexity = c;
      capabilities = if is_low c then append_cap caps "simple" else caps;
      score = clamp_score score;
    }

-- The capabilities that signals of code and of reasoning give.
unfoldable pub signalled : Bool → Bool → List String
unfolding append_cap
signalled code reasoning =
    let caps = "chat" ∷ [] in
    let caps = if code then append_cap caps "code" else caps in
    if reasoning then append_cap caps "reasoning" else caps

-- The dampener for trivial prompts and the end of Analyze.
unfoldable pub settled : Bool → Modality → List String → ℕ → TaskProfile
unfolding append_cap graded
settled trivial m caps score =
    if trivial then graded m (append_cap caps "simple") 0 else graded m caps score

-- The score before the dampener.
unfoldable pub raw_score : ℕ → ℕ → List ℕ → List ℕ → ℕ
unfolding points code_cues reasoning_cues request_cues
raw_score words lines prompt text =
    points (code_cues prompt text)
    + points (reasoning_cues words text)
    + points (request_cues words lines text)

abbrev pub code_or_text : Bool → Modality
code_or_text b = if b then Modality.code else Modality.text

-- The rest of Analyze, for a prompt that is neither for vision nor for documents.
unfoldable pub weigh : ℕ → ℕ → List ℕ → List ℕ → TaskProfile
unfolding points any_found code_cues reasoning_cues raw_score is_trivial signalled settled
weigh words lines prompt text =
    let code = any_found (code_cues prompt text) in
    let score = raw_score words lines prompt text in
    settled (is_trivial words text score) (code_or_text code)
      (signalled code (ltb 0 (points (reasoning_cues words text)))) score

-- Analyze
unfoldable pub analyze : String → TaskProfile
unfolding word_count asks_for_vision asks_for_document pipeline weigh
analyze prompt =
    let p = codes (trim_space prompt) in
    let text = lower p in
    if asks_for_vision text
    then pipeline Modality.vision ("vision" ∷ "ocr" ∷ [])
    else if asks_for_document text
    then pipeline Modality.document ("document" ∷ [])
    else weigh (word_count false p) (suc (count_if (λ c. c == 10) p)) p text
