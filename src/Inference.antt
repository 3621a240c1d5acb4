-- ===== src/Inference.antt =====
-- internal/modelruntime: requests for inference and the choice of a runtime. What a daemon answers is
-- decoded by encoding/json; the decoded values are arguments here.
pub mod Compact
pub mod Compacting
pub mod Context
pub mod Runtimes
pub mod Choosing
use houdry.Prelude.{ℕ, String, List, Option}
use houdry.Prelude.Int.{ℤ}

pub record ToolCall : Type 0 where
  pub id : String
  pub call_type : String
  pub name : String
  pub arguments : String

pub record ChatMessage : Type 0 where
  pub role : String
  pub content : String
  pub images : List String
  pub name : String
  pub tool_call_id : String
  pub tool_calls : List ToolCall

pub record Tool : Type 0 where
  pub tool_type : String
  pub name : String
  pub description : String
  pub parameters : String

-- A temperature is kept as it is written.
pub record InferOptions : Type 0 where
  pub max_tokens : ℤ
  pub keep_alive : String
  pub temperature : Option String
  pub num_ctx : ℤ

pub record InferRequest : Type 0 where
  pub name : String
  pub tag : String
  pub prompt : String
  pub messages : List ChatMessage
  pub images : List String
  pub tools : List Tool
  pub tool_choice : Option String
  pub options : InferOptions
