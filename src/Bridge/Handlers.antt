-- ===== src/Bridge/Handlers.antt =====
-- The handlers of single backend events in
-- old_rust/crates/gateway-http-anthropic/src/sse_bridge.rs.
use Prim.Native.String.{◌++◌ as append}
use cld_gateway.Base.{
  ℕ, String, Bool, true, false, Option, none, some, List, [], ◌∷◌, ◌++◌, map, filter, not, opt_eq,
  str_eq, is_some, if◌then◌else◌, unwrap_or, or_else,
}
use cld_gateway.Base.Dict
use cld_gateway.Base.Text.{is_blank}
use cld_gateway.Json.{Json, get}
use cld_gateway.Codex.Types.{CodexToolCall, as_str}
use cld_gateway.Codex.Serde.{Serde}
use cld_gateway.Codex.ToolCalls.{◌>>=◌, get_str, parse_output_item_tool_call}
use cld_gateway.Codex.OutputText.{message_item_output_texts}
use cld_gateway.Bridge.Event.{
  Event, content_block_start_text, content_block_start_tool_use, content_block_start_thinking,
  content_block_delta_text, content_block_delta_thinking,
}
use cld_gateway.Bridge.State.{
  StreamState, open_text_block_if_needed, open_thinking_block_if_needed, ensure_tool_block,
}
use cld_gateway.Bridge.WebSearch.{
  WebSearchCall, web_search_call_from_value, web_search_call_from_item, emit_web_search_call_blocks,
}

-- A call of `ToolCallStore::record_tool_call`, whose result the bridge ignores.
pub record ToolCallRecord : Type 0 where
  pub call_id : String
  pub tool_name : String
  pub tool_kind : String
  pub request_id : Option String

-- What a handler returns, the state that it leaves and the calls of the store that it makes.
pub record Outcome : Type 0 where
  pub events : Option (List Event)
  pub state : StreamState
  pub recorded : List ToolCallRecord

abbrev pub quiet : Option (List Event) × StreamState → Outcome
quiet (events, st) = record { events = events; state = st; recorded = [] }

-- `(!out.is_empty()).then_some(out)`.
abbrev pub non_empty_events : List Event → Option (List Event)
non_empty_events [] = none
non_empty_events (e ∷ es) = some (e ∷ es)

-- The start of a block, if it is a new one.
abbrev pub start_if : Bool → Event → List Event
start_if true e = e ∷ []
start_if false e = []

-- The text's delta, behind the start of its block where there is none yet.
abbrev pub send_text : String → StreamState → Option (List Event) × StreamState
send_text text st =
    let ((text_index, started), st') = open_text_block_if_needed st in
    (
      some (
          start_if started (content_block_start_text text_index)
          ++ content_block_delta_text text_index text ∷ []),
      record st' { saw_output_text_delta = true },
    )

abbrev pub output_text_delta : Option String → StreamState → Option (List Event) × StreamState
output_text_delta none st = (none, st)
output_text_delta (some text) st =
    if is_blank text
    then (none, st)
    else if is_some st.structured_output_schema
    then (
      none,
      record st {
        structured_output_text_buffer = append st.structured_output_text_buffer text;
        saw_output_text_delta = true;
      },
    )
    else send_text text st

-- The function that extracts the text is the caller's.
unfoldable pub handle_output_text_delta :
    (String → Option String) → StreamState → String → Option (List Event) × StreamState
handle_output_text_delta extract_stream_delta_text st data' =
    output_text_delta (extract_stream_delta_text data') st

abbrev pub put_arguments : Bool → CodexToolCall → StreamState → StreamState
put_arguments true call st = record st {
  tool_args_buf_by_call_id = Dict.insert call.call_id call.arguments st.tool_args_buf_by_call_id;
}
put_arguments false call st = st

abbrev pub tool_call_record : CodexToolCall → Option String → ToolCallRecord
tool_call_record call request_id = record {
  call_id = call.call_id;
  tool_name = call.name;
  tool_kind = as_str call.kind;
  request_id = request_id;
}

abbrev pub announce : Bool → ℕ → CodexToolCall → Option String → StreamState → Outcome
announce true tool_index call request_id st = record {
  events = some (content_block_start_tool_use tool_index call.call_id call.name ∷ []);
  state = st;
  recorded = tool_call_record call request_id ∷ [];
}
announce false tool_index call request_id st = quiet (none, st)

-- For the block of the call.
abbrev pub announce_item : CodexToolCall → Bool → Option String → (ℕ × Bool) × StreamState → Outcome
announce_item call final_item request_id ((tool_index, is_new), st1) =
    let st2 = record st1 {
      last_tool_call_id = some call.call_id;
      tool_name_by_call_id = Dict.insert call.call_id call.name st1.tool_name_by_call_id;
      tool_kind_by_call_id = Dict.insert call.call_id call.kind st1.tool_kind_by_call_id;
    } in
    announce is_new tool_index call request_id (put_arguments final_item call st2)

unfoldable pub handle_tool_call_item : StreamState → CodexToolCall → Bool → Option String → Outcome
handle_tool_call_item st call final_item request_id =
    announce_item call final_item request_id (ensure_tool_block call.call_id st)

abbrev pub concat : List String → String
concat [] = ""
concat (s ∷ ss) = append s (concat ss)

-- The texts go to the buffer, or into deltas of the text block.
abbrev pub message_texts : List String → StreamState → Option (List Event) × StreamState
message_texts [] st = (none, st)
message_texts (t ∷ ts) st =
    if is_some st.structured_output_schema
    then (
      none,
      record st {
        structured_output_text_buffer = append st.structured_output_text_buffer (concat (t ∷ ts));
        saw_output_text_delta = true;
      },
    )
    else (let ((text_index, started), st') = open_text_block_if_needed st in
        (
          non_empty_events (
              start_if started (content_block_start_text text_index)
              ++ map (content_block_delta_text text_index) (t ∷ ts)),
          st',
        ))

unfoldable pub handle_message_item : StreamState → Json → Option (List Event) × StreamState
handle_message_item st item =
    if st.saw_output_text_delta
    then (none, st)
    else message_texts (filter (λ t. not (is_blank t)) (message_item_output_texts item)) st

abbrev pub emit_call : Option WebSearchCall → StreamState → Option (List Event) × StreamState
emit_call none st = (none, st)
emit_call (some call) st = emit_web_search_call_blocks st call

unfoldable pub handle_web_search_call_item : StreamState → Json → Option (List Event) × StreamState
handle_web_search_call_item st item = emit_call (web_search_call_from_item item "output_item") st

-- The tail of `handle_output_item`, for an item that is no tool call.
abbrev pub other_item : Option Json → StreamState → Option (List Event) × StreamState
other_item none st = (none, st)
other_item (some item) st =
    if opt_eq (get_str "type" item) (some "web_search_call")
    then handle_web_search_call_item st item
    else if opt_eq (get_str "type" item) (some "message")
    then handle_message_item st item
    else (none, st)

abbrev pub append_argument : String → String → StreamState → StreamState
append_argument call_id delta st = record st {
  tool_args_buf_by_call_id =
      Dict.insert call_id
        (append (unwrap_or (Dict.get call_id st.tool_args_buf_by_call_id) "") delta)
        st.tool_args_buf_by_call_id;
}

abbrev pub tool_arg_delta : Option String → String → StreamState → Option (List Event) × StreamState
tool_arg_delta none delta st = (none, st)
tool_arg_delta (some call_id) delta st =
    let ((tool_index, is_new), st1) = ensure_tool_block call_id st in
    (
      non_empty_events (start_if is_new (content_block_start_tool_use tool_index call_id "")),
      append_argument call_id delta st1,
    )

abbrev pub send_thinking : String → StreamState → Option (List Event) × StreamState
send_thinking delta st =
    let ((idx, started), st') = open_thinking_block_if_needed st in
    (
      some (
          start_if started (content_block_start_thinking idx)
          ++ content_block_delta_thinking idx delta ∷ []),
      st',
    )

abbrev pub argument_fields :
    Option (Option String × String) → StreamState → Option (List Event) × StreamState
argument_fields none st = (none, st)
argument_fields (some (call_id, delta)) st =
    tool_arg_delta (or_else call_id st.last_tool_call_id) delta st

abbrev pub thinking_fields :
    Option (Option String × String) → StreamState → Option (List Event) × StreamState
thinking_fields none st = (none, st)
thinking_fields (some (call_id, delta)) st = send_thinking delta st

module _ (S : Serde) where
  abbrev pub output_item :
      Option CodexToolCall → StreamState → String → String → Option String → Outcome
  output_item (some call) st event_name data' request_id =
      handle_tool_call_item st call (str_eq event_name "response.output_item.done") request_id
  output_item none st event_name data' request_id =
      quiet (other_item (S.parse data' >>= get "item") st)

  unfoldable pub handle_output_item : StreamState → String → String → Option String → Outcome
  handle_output_item st event_name data' request_id =
      output_item (parse_output_item_tool_call S event_name data') st event_name data' request_id

  unfoldable pub handle_web_search_call_event :
      StreamState → String → String → Option (List Event) × StreamState
  handle_web_search_call_event st event_name data' =
      emit_call (S.parse data' >>= web_search_call_from_value event_name) st

  -- The call id, and the delta. (The item id is read and not used.)
  unfoldable pub parse_delta_event_fields : String → Option (Option String × String)
  parse_delta_event_fields data' = do
    v ← S.parse data'
    delta ← get_str "delta" v
    some (get_str "call_id" v, delta)

  unfoldable pub handle_tool_arg_delta : StreamState → String → Option (List Event) × StreamState
  handle_tool_arg_delta st data' = argument_fields (parse_delta_event_fields data') st

  unfoldable pub handle_reasoning_delta : StreamState → String → Option (List Event) × StreamState
  handle_reasoning_delta st data' = thinking_fields (parse_delta_event_fields data') st
