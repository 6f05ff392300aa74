-- ===== src/Bridge/State.antt =====
-- `StreamState` of old_rust/crates/gateway-http-anthropic/src/sse_bridge.rs and its methods.
use cld_gateway.Base.{
  ℕ, ◌+◌, String, Bool, true, false, Option, none, some, List, [], ◌∷◌, ◌++◌, ltb, if◌then◌else◌,
}
use cld_gateway.Base.Dict
use cld_gateway.Base.Dict.{Dict}
use cld_gateway.Json.{Json}
use cld_gateway.Codex.Types.{CodexTokenUsage, CodexToolCallKind}
use cld_gateway.Codex.Completed.{u32_max}

pub record BlockState : Type 0 where
  pub index : ℕ
  pub closed : Bool

-- The two sets of web-search ids are lists without repetition.
pub record StreamState : Type 0 where
  pub next_block_index : ℕ
  pub blocks : List BlockState
  pub active_text_index : Option ℕ
  pub saw_output_text_delta : Bool
  pub structured_output_schema : Option Json
  pub structured_output_text_buffer : String
  pub active_thinking_index : Option ℕ
  pub tool_blocks_by_call_id : Dict ℕ
  pub tool_name_by_call_id : Dict String
  pub tool_kind_by_call_id : Dict CodexToolCallKind
  pub tool_args_buf_by_call_id : Dict String
  pub last_tool_call_id : Option String
  pub completed_usage : Option CodexTokenUsage
  pub context_management : Option Json
  pub completed_web_search_call_ids : List String
  pub emitted_web_search_call_ids : List String
  pub completed : Bool

abbrev pub new : StreamState
new = record {
  next_block_index = 0;
  blocks = [];
  active_text_index = none;
  saw_output_text_delta = false;
  structured_output_schema = none;
  structured_output_text_buffer = "";
  active_thinking_index = none;
  tool_blocks_by_call_id = [];
  tool_name_by_call_id = [];
  tool_kind_by_call_id = [];
  tool_args_buf_by_call_id = [];
  last_tool_call_id = none;
  completed_usage = none;
  context_management = none;
  completed_web_search_call_ids = [];
  emitted_web_search_call_ids = [];
  completed = false;
}

unfoldable pub with_context_management : Option Json → StreamState → StreamState
with_context_management context_management st = record st {
  context_management = context_management;
}

unfoldable pub with_structured_output_schema : Option Json → StreamState → StreamState
with_structured_output_schema schema st = record st { structured_output_schema = schema }

-- `saturating_add(1)` on a `u32`.
abbrev pub next_index : ℕ → ℕ
next_index n = if ltb n u32_max then n + 1 else u32_max

unfoldable pub add_block : StreamState → ℕ × StreamState
add_block st = (
  st.next_block_index,
  record st {
    next_block_index = next_index st.next_block_index;
    blocks = st.blocks ++ record { index = st.next_block_index; closed = false } ∷ [];
  },
)

abbrev pub open_thinking : Option ℕ → StreamState → (ℕ × Bool) × StreamState
open_thinking (some idx) st = ((idx, false), st)
open_thinking none st =
    let (idx, st') = add_block st in ((idx, true), record st' { active_thinking_index = some idx })

unfoldable pub open_thinking_block_if_needed : StreamState → (ℕ × Bool) × StreamState
unfolding add_block
open_thinking_block_if_needed st = open_thinking st.active_thinking_index st

abbrev pub open_text : Option ℕ → StreamState → (ℕ × Bool) × StreamState
open_text (some idx) st = ((idx, false), st)
open_text none st =
    let (idx, st') = add_block st in ((idx, true), record st' { active_text_index = some idx })

unfoldable pub open_text_block_if_needed : StreamState → (ℕ × Bool) × StreamState
unfolding add_block
open_text_block_if_needed st = open_text st.active_text_index st

-- `entry(call_id).or_default()`.
abbrev pub or_default : String → Option String → Dict String → Dict String
or_default call_id none m = Dict.insert call_id "" m
or_default call_id (some buf) m = m

abbrev pub tool_block : String → Option ℕ → StreamState → (ℕ × Bool) × StreamState
tool_block call_id (some idx) st = ((idx, false), st)
tool_block call_id none st =
    let (idx, st') = add_block st in
    (
      (idx, true),
      record st' {
        tool_blocks_by_call_id = Dict.insert call_id idx st'.tool_blocks_by_call_id;
        tool_args_buf_by_call_id =
            or_default call_id (Dict.get call_id st'.tool_args_buf_by_call_id)
              st'.tool_args_buf_by_call_id;
      },
    )

unfoldable pub ensure_tool_block : String → StreamState → (ℕ × Bool) × StreamState
unfolding add_block
ensure_tool_block call_id st = tool_block call_id (Dict.get call_id st.tool_blocks_by_call_id) st
