-- ===== src/Anthropic.antt =====
-- The parts of old_rust/crates/gateway-http-anthropic/src/types.rs that context management and the
-- response gate read: messages, their blocks, the edits and the output format of a request.
use cld_gateway.Base.{ℕ, String, Bool, Option, List}
use cld_gateway.Json.{Json, Fields}

pub record AnthropicContextThreshold : Type 0 where
  pub threshold_type : String
  pub value : ℕ

pub record AnthropicContextEdit : Type 0 where
  pub edit_type : String
  pub trigger : Option AnthropicContextThreshold
  pub keep : Option Json
  pub clear_at_least : Option AnthropicContextThreshold
  pub exclude_tools : List String
  pub clear_tool_inputs : Bool

pub record AnthropicContextManagement : Type 0 where
  pub edits : List AnthropicContextEdit

pub record AnthropicOutputConfig : Type 0 where
  pub effort : Option String
  pub format : Option Json

pub record AnthropicImageSource : Type 0 where
  pub source_type : String
  pub media_type : Option String
  pub data' : Option String
  pub extra : Fields

pub record AnthropicContentBlock : Type 0 where
  pub block_type : String
  pub text : Option String
  pub id : Option String
  pub name : Option String
  pub input : Option Json
  pub tool_use_id : Option String
  pub content : Option Json
  pub is_error : Option Bool
  pub source : Option AnthropicImageSource
  pub extra : Fields

pub data AnthropicContent : Type 0 where
  text : String → AnthropicContent
  blocks : List AnthropicContentBlock → AnthropicContent

pub record AnthropicMessage : Type 0 where
  pub role : String
  pub content : AnthropicContent
