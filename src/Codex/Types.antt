-- ===== src/Codex/Types.antt =====
-- old_rust/crates/gateway-backend-codex/src/types.rs, as far as the stream bridge uses it.
use cld_gateway.Base.{ℕ, String, ◌≡◌, refl, Option, none, some, str_eq, if◌then◌else◌}
use cld_gateway.Base.Int.{ℤ}

-- The first five are `i64`, the last `u32`.
pub record CodexTokenUsage : Type 0 where
  pub input_tokens : ℤ
  pub cached_input_tokens : ℤ
  pub output_tokens : ℤ
  pub reasoning_output_tokens : ℤ
  pub total_tokens : ℤ
  pub web_search_requests : ℕ

pub data CodexToolCallKind : Type 0 where
  function custom tool_search local_shell : CodexToolCallKind

pub record CodexToolCall : Type 0 where
  pub call_id : String
  pub name : String
  pub arguments : String
  pub kind : CodexToolCallKind

unfoldable pub as_str : CodexToolCallKind → String
as_str function = "function_call"
as_str custom = "custom_tool_call"
as_str tool_search = "tool_search_call"
as_str local_shell = "local_shell_call"

unfoldable pub output_type : CodexToolCallKind → String
output_type function = "function_call_output"
output_type custom = "custom_tool_call_output"
output_type tool_search = "tool_search_output"
output_type local_shell = "function_call_output"

unfoldable pub from_str : String → Option CodexToolCallKind
from_str s =
    if str_eq s "function_call"
    then some function
    else if str_eq s "custom_tool_call"
    then some custom
    else if str_eq s "tool_search_call"
    then some tool_search
    else if str_eq s "local_shell_call"
    then some local_shell
    else none

-- The kind that is read from the text of a kind of tool call is that kind.
pub from_str-as_str : (k : CodexToolCallKind) → from_str (as_str k) ≡ some k
unfolding from_str as_str
from_str-as_str function = refl
from_str-as_str custom = refl
from_str-as_str tool_search = refl
from_str-as_str local_shell = refl
