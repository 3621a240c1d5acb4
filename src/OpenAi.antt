-- ===== src/OpenAi.antt =====
-- internal/openaicompat/types.go: what a chat request says. The content of a message is what
-- encoding/json makes of it: a text (also null), parts, or another value as it is written.
use houdry.Prelude.{
  String, Bool, not, ◌&&◌, ◌||◌, List, [], ◌∷◌, Option, none, some, str_eq, any, is_empty,
  if◌then◌else◌,
}
use houdry.Text.{append, codes, lower, trim_space, equal_fold, eq_codes}

-- The `type` and the `text` of a part, where they are texts.
pub record Part : Type 0 where
  pub part_type : Option String
  pub text : Option String

pub data Content : Type 0 where
  absent : Content
  text : String → Content
  parts : List Part → Content
  raw : String → Content

pub record Message : Type 0 where
  pub role : String
  pub content : Content
  pub has_tool_calls : Bool

-- The text of a part that counts.
unfoldable pub part_text : Part → Option String
part_text p =
    if str_eq (elim p.part_type [ none ↦ "" | some t ↦ t ]) "text"
      || str_eq (elim p.part_type [ none ↦ "" | some t ↦ t ]) ""
    then p.text
    else none

unfoldable pub join_parts : String → List Part → String
unfolding part_text
join_parts b [] = b
join_parts b (p ∷ ps) =
    join_parts
      (elim (part_text p) [
        | none ↦ b
        | some t ↦ if str_eq b "" then t else append b (append "\n" t)
      ])
      ps

-- ContentString
unfoldable pub content_string : Content → String
unfolding join_parts
content_string absent = ""
content_string (text s) = s
content_string (parts ps) = join_parts "" ps
content_string (raw s) = trim_space s

-- One turn of MessagesToPrompt.
unfoldable pub prompt_line : Message → String
unfolding content_string
prompt_line m =
    let role = if str_eq (trim_space m.role) "" then "user" else trim_space m.role in
    let said = trim_space (content_string m.content) in
    if str_eq said "" then "" else append role (append ": " (append said "\n"))

prompt_lines : List Message → String
unfolding prompt_line
prompt_lines [] = ""
prompt_lines (m ∷ ms) = append (prompt_line m) (prompt_lines ms)

-- MessagesToPrompt
unfoldable pub messages_to_prompt : List Message → String
unfolding prompt_lines
messages_to_prompt ms = trim_space (prompt_lines ms)

-- The last text of the user, if one is not blank.
unfoldable pub last_user : List Message → Option String
unfolding content_string
last_user [] = none
last_user (m ∷ ms) = elim (last_user ms) [
  | some t ↦ some t
  | none ↦
      if equal_fold m.role "user" && not (str_eq (trim_space (content_string m.content)) "")
      then some (trim_space (content_string m.content))
      else none
]

-- LastUserText
unfoldable pub last_user_text : List Message → String
unfolding last_user messages_to_prompt
last_user_text ms = elim (last_user ms) [ some t ↦ t | none ↦ messages_to_prompt ms ]

pub data ChatError : Type 0 where
  no_messages no_content : ChatError

-- ValidateChatRequest; no error is `none`.
unfoldable pub validate_chat_request : List Message → Option ChatError
unfolding content_string
validate_chat_request ms =
    if is_empty ms
    then some no_messages
    else if any
        (λ (m : Message).
          not (str_eq (trim_space (content_string m.content)) "") || m.has_tool_calls)
        ms
    then none
    else some no_content

-- IsAutoModel. Lower case is taken before the spaces are trimmed, which for ASCII is the same.
unfoldable pub is_auto_model : String → Bool
is_auto_model model =
    let m = lower (codes (trim_space model)) in
    is_empty m
    || eq_codes m (codes "auto")
    || eq_codes m (codes "houdry")
    || eq_codes m (codes "houdry/auto")
