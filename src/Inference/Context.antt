-- ===== src/Inference/Context.antt =====
-- internal/modelruntime/ollama_context.go. The environment variable and what the daemon answers are
-- arguments; the two maps of the cache are written together and are one map here.
pub mod Resolving
use houdry.Prelude.{
  ℕ, suc, ◌+◌, ◌-◌, ◌*◌, ◌^◌, String, Bool, true, false, not, ◌&&◌, ◌||◌, List, [], ◌∷◌, Option,
  none, some, str_eq, ltb, leb, ◌==◌, if◌then◌else◌, is_empty,
}
use houdry.Prelude.Int.{ℤ, pos, negsuc, ltb_ℤ, eqb_ℤ}
use houdry.Prelude.Maps.{Map, get, put}
use houdry.Text.{append, codes, trim_space, equal_fold, is_space, eq_codes, has_suffix}
use houdry.Inference.{InferOptions}

abbrev pub default_num_ctx_cap : ℕ
default_num_ctx_cap = 32_768

abbrev pub fallback_num_ctx : ℕ
fallback_num_ctx = 8_192

all_digits : List ℕ → Bool
all_digits [] = true
all_digits (c ∷ s) = leb b'0' c && leb c b'9' && all_digits s

digits_value : ℕ → List ℕ → ℕ
digits_value n [] = n
digits_value n (c ∷ s) = digits_value (n * 10 + (c - b'0')) s

-- A number without a sign, below a bound.
unsigned : List ℕ → Option ℕ
unfolding all_digits digits_value
unsigned s =
    if not (is_empty s) && all_digits s && ltb (digits_value 0 s) (2 ^ 63)
    then some (digits_value 0 s)
    else none

-- strconv.Atoi where its answer is positive; `none` is an error or a number that is not.
unfoldable pub positive_atoi : List ℕ → Option ℕ
unfolding unsigned
positive_atoi [] = none
positive_atoi (c ∷ s) = elim (unsigned (if c == b'+' then s else c ∷ s)) [
  | none ↦ none
  | some n ↦ if ltb 0 n then some n else none
]

-- parseNumCtxEnv
unfoldable pub parse_num_ctx_env : String → ℕ × Bool
unfolding positive_atoi
parse_num_ctx_env env =
    let raw = trim_space env in
    if str_eq raw ""
    then (0, false)
    else if equal_fold raw "max" || equal_fold raw "unlimited"
    then (0, true)
    else elim (positive_atoi (codes raw)) [ none ↦ (0, false) | some n ↦ (n, false) ]

cons_first : ℕ → List (List ℕ) → List (List ℕ)
cons_first c [] = (c ∷ []) ∷ []
cons_first c (w ∷ ws) = (c ∷ w) ∷ ws

-- strings.Split at one character
split_on : ℕ → List ℕ → List (List ℕ)
unfolding cons_first
split_on d [] = [] ∷ []
split_on d (c ∷ s) = let rest = split_on d s in if c == d then [] ∷ rest else cons_first c rest

-- strings.Fields; the flag is whether a field goes on.
fields_from : Bool → List ℕ → List (List ℕ)
unfolding cons_first
fields_from goes [] = if goes then [] ∷ [] else []
fields_from goes (c ∷ s) =
    let after = fields_from false s in
    let within = fields_from true s in
    if is_space c then if goes then [] ∷ after else after else cons_first c within

last_of : List ℕ → List (List ℕ) → List ℕ
last_of w [] = w
last_of w (v ∷ vs) = last_of v vs

-- A line `num_ctx` of a Modelfile, by its fields.
line_num_ctx : List (List ℕ) → Option ℕ
unfolding positive_atoi last_of
line_num_ctx [] = none
line_num_ctx (w ∷ []) = none
line_num_ctx (w ∷ (v ∷ vs)) =
    if eq_codes w (codes "num_ctx") then positive_atoi (last_of v vs) else none

first_line : List (List ℕ) → Option ℕ
unfolding line_num_ctx fields_from
first_line [] = none
first_line (l ∷ ls) =
    let rest = first_line ls in
    elim (line_num_ctx (fields_from false l)) [ none ↦ rest | some n ↦ some n ]

-- A value of the model's metadata: a number, by its whole part where it is positive, or another.
pub data MetaValue : Type 0 where
  positive : ℕ → MetaValue
  other : MetaValue

first_length : List (String × MetaValue) → ℕ
first_length [] = 0
first_length ((key, other) ∷ rest) = first_length rest
first_length ((key, positive n) ∷ rest) =
    let later = first_length rest in
    if has_suffix (codes key) (codes "context_length") then n else later

-- What /api/show answers, the metadata in the order in which the loop meets it.
pub record Shown : Type 0 where
  pub parameters : String
  pub model_info : List (String × MetaValue)

-- showContextLength; no answer is an error of any kind.
unfoldable pub show_context_length : Option Shown → ℕ
unfolding first_line split_on first_length
show_context_length none = 0
show_context_length (some r) = elim (first_line (split_on 10 (codes r.parameters))) [
  | some n ↦ n
  | none ↦ first_length r.model_info
]

-- What was detected for the reference, and the cache that remembers it.
unfoldable pub detect : String → Option Shown → Map ℕ → Map ℕ × ℕ
unfolding show_context_length
detect key answer cache = elim (get key cache) [
  | some n ↦ (cache, n)
  | none ↦ (put key (show_context_length answer) cache, show_context_length answer)
]

-- The window for what was detected.
unfoldable pub clamp_window : Bool → ℕ → ℕ
clamp_window uncapped detected =
    if detected == 0
    then fallback_num_ctx
    else if not uncapped && ltb default_num_ctx_cap detected
    then default_num_ctx_cap
    else detected

-- resolveNumCtx, with the operator's variable, the base URL and what the daemon would answer.
unfoldable pub resolve_num_ctx : String → String → Option Shown → String → ℤ → Map ℕ → Map ℕ × ℤ
unfolding parse_num_ctx_env detect clamp_window
resolve_num_ctx env base answer ref requested cache =
    let (value, uncapped) = parse_num_ctx_env env in
    if ltb_ℤ (pos 0) requested
    then (cache, requested)
    else if ltb 0 value
    then (cache, pos value)
    else let (after, detected) = detect (append base (append "|" ref)) answer cache in
      (after, pos (clamp_window uncapped detected))

pub record OllamaOptions : Type 0 where
  pub num_predict : Option ℤ
  pub temperature : Option String
  pub num_ctx : Option ℤ

-- buildOptions
unfoldable pub build_options :
    String → String → Option Shown → String → InferOptions → Map ℕ → Map ℕ × OllamaOptions
unfolding resolve_num_ctx
build_options env base answer ref o cache =
    let (after, n) = resolve_num_ctx env base answer ref o.num_ctx cache in
    (
      after,
      record {
        num_predict = if eqb_ℤ o.max_tokens (pos 0) then none else some o.max_tokens;
        temperature = o.temperature;
        num_ctx = if ltb_ℤ (pos 0) n then some n else none;
      },
    )
