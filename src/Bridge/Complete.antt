-- ===== src/Bridge/Complete.antt =====
-- The end of a stream, and the dispatch over the names of backend events, in
-- old_rust/crates/gateway-http-anthropic/src/sse_bridge.rs.
use Prim.Native.String.{◌++◌ as append}
use cld_gateway.Base.{
  ℕ, String, Bool, true, Option, none, some, List, [], ◌∷◌, ◌++◌, leb, ◌&&◌, ◌||◌, not, str_eq,
  is_some, if◌then◌else◌, unwrap_or, length, sort_by,
}
use cld_gateway.Base.Dict
use cld_gateway.Base.Dict.{Dict}
use cld_gateway.Base.Result.{Result, ok, err}
use cld_gateway.Base.Text.{is_blank}
use cld_gateway.Json.{Fields, object}
use cld_gateway.Codex.Types.{CodexTokenUsage, function}
use cld_gateway.Codex.Serde.{Serde}
use cld_gateway.Codex.Failure.{parse_backend_failure_event}
use cld_gateway.Codex.Completed.{
  extract_usage_from_completed_event, record_completed_web_search_call_ids, saturating_u32_len,
}
use cld_gateway.ToolArgs.{PolicyEdit, sanitized_tool_args_for_kind}
use cld_gateway.ResponseGate.{cleanup_structured_output_text_with_schema}
use cld_gateway.Bridge.Event.{
  Event, content_block_delta_input_json, content_block_stop, message_delta, message_stop,
  error_event,
}
use cld_gateway.Bridge.State.{StreamState, BlockState}
use cld_gateway.Bridge.WebSearch.{
  WebSearchCall, web_search_calls_from_completed, emit_web_search_call_blocks,
}
use cld_gateway.Bridge.Handlers.{
  Outcome, quiet, send_text, handle_output_text_delta, handle_output_item,
  handle_web_search_call_event, handle_tool_arg_delta, handle_reasoning_delta,
}

abbrev pub event_list : Option (List Event) → List Event
event_list none = []
event_list (some es) = es

-- The stops of the blocks that are not closed.
unfoldable pub stop_events : List BlockState → List Event
stop_events [] = []
stop_events (b ∷ bs) =
    let rest = stop_events bs in if b.closed then rest else content_block_stop b.index ∷ rest

unfoldable pub close_blocks : List BlockState → List BlockState
close_blocks [] = []
close_blocks (b ∷ bs) = record b { closed = true } ∷ close_blocks bs

abbrev pub stop_reason_of : Dict ℕ → String
stop_reason_of [] = "end_turn"
stop_reason_of (t ∷ ts) = "tool_use"

-- The calls of completed searches, in order; a call that was sent before sends nothing.
unfoldable pub emit_calls : List WebSearchCall → StreamState → List Event × StreamState
emit_calls [] st = ([], st)
emit_calls (call ∷ calls) st =
    let (events, st1) = emit_web_search_call_blocks st call in
    let (rest, st2) = emit_calls calls st1 in (event_list events ++ rest, st2)

-- By the block's index, for the pairs of a call id and an index.
abbrev pub by_index : String × ℕ → String × ℕ → Bool
by_index (a, i) (b, j) = leb i j

module _ (S : Serde) where
  -- The buffered text of a structured output, cleaned by the schema.
  abbrev pub structured_text : StreamState → String
  structured_text st =
      cleanup_structured_output_text_with_schema S st.structured_output_schema
        st.structured_output_text_buffer

  unfoldable pub flush_structured_output : StreamState → List Event × StreamState
  flush_structured_output st =
      if is_some st.structured_output_schema
        && (not (is_blank st.structured_output_text_buffer) && not (is_blank (structured_text st)))
      then (let (events, st') = send_text (structured_text st) st in (event_list events, st'))
      else ([], st)

  unfoldable pub finalize_message : StreamState → List Event × StreamState
  finalize_message st =
      let (texts, st1) = flush_structured_output (record st { completed = true }) in
      (
        texts
            ++ (stop_events st1.blocks
                ++ (message_delta (stop_reason_of st1.tool_blocks_by_call_id) st1.completed_usage
                      st1.context_management
                    ∷ message_stop
                    ∷ [])),
        record st1 { blocks = close_blocks st1.blocks },
      )

  unfoldable pub tool_args_delta_from_object : ℕ → Fields → Event
  tool_args_delta_from_object index obj =
      content_block_delta_input_json index (unwrap_or (S.print (object obj)) "{}")

  -- The edits that the policies made are only logged.
  abbrev pub args_event : ℕ → Result String (Fields × List PolicyEdit) → Result String Event
  args_event tool_index (ok (obj, edits)) = ok (tool_args_delta_from_object tool_index obj)
  args_event tool_index (err e) = err e

  -- The arguments of one call.
  abbrev pub tool_args_event : StreamState → String × ℕ → Result String Event
  tool_args_event st (call_id, tool_index) = args_event tool_index (
      sanitized_tool_args_for_kind S (unwrap_or (Dict.get call_id st.tool_name_by_call_id) "")
        (unwrap_or (Dict.get call_id st.tool_kind_by_call_id) function)
        (unwrap_or (Dict.get call_id st.tool_args_buf_by_call_id) ""))

  abbrev pub prepend : Result String Event → Result String (List Event) → Result String (List Event)
  prepend (err e) rest = err e
  prepend (ok x) (err e) = err e
  prepend (ok x) (ok xs) = ok (x ∷ xs)

  -- The first call whose arguments are refused ends the loop.
  unfoldable pub tool_args_events : StreamState → List (String × ℕ) → Result String (List Event)
  tool_args_events st [] = ok []
  tool_args_events st (t ∷ ts) = prepend (tool_args_event st t) (tool_args_events st ts)

  abbrev pub with_searches : ℕ → Option CodexTokenUsage → Option CodexTokenUsage
  with_searches n none = none
  with_searches n (some usage) = some (record usage { web_search_requests = saturating_u32_len n })

  -- A refused argument drops what was to be sent, and the message stays open.
  abbrev pub finish :
      List Event → StreamState → Result String (List Event) → List Event × StreamState
  finish out st (err e) = (error_event e, st)
  finish out st (ok args) = let (final, st') = finalize_message st in ((out ++ args) ++ final, st')

  unfoldable pub handle_completed : StreamState → String → List Event × StreamState
  handle_completed st data' =
      let st1 = record st {
        completed_usage =
            with_searches (length st.completed_web_search_call_ids)
              (extract_usage_from_completed_event S data');
      } in
      let (out, st2) = emit_calls (web_search_calls_from_completed S data') st1 in
      finish out st2 (tool_args_events st2 (sort_by by_index st2.tool_blocks_by_call_id))

  abbrev pub completed_outcome : List Event × StreamState → Outcome
  completed_outcome (events, st) = quiet (some events, st)

  -- The `match` on the event's name.
  unfoldable pub dispatch :
      (String → Option String) → StreamState → String → String → Option String → Outcome
  dispatch extract_stream_delta_text st event_name data' request_id =
      if str_eq event_name "response.output_text.delta"
      then quiet (handle_output_text_delta extract_stream_delta_text st data')
      else if str_eq event_name "response.output_item.added"
          || str_eq event_name "response.output_item.done"
      then handle_output_item S st event_name data' request_id
      else if str_eq event_name "response.web_search_call.completed"
      then quiet (handle_web_search_call_event S st event_name data')
      else if str_eq event_name "response.function_call_arguments.delta"
          || str_eq event_name "response.custom_tool_call_input.delta"
      then quiet (handle_tool_arg_delta S st data')
      else if str_eq event_name "response.reasoning_text.delta"
          || str_eq event_name "response.reasoning_summary_text.delta"
      then quiet (handle_reasoning_delta S st data')
      else if str_eq event_name "response.completed"
      then completed_outcome (handle_completed st data')
      else quiet (none, st)

  abbrev pub unless_failed :
      Option String
      → (String → Option String)
      → StreamState
      → String
      → String
      → Option String
      → Outcome
  unless_failed (some message) extract_stream_delta_text st event_name data' request_id = quiet (
    some (error_event (append "backend stream failed: " message)),
    record st { completed = true },
  )
  unless_failed none extract_stream_delta_text st event_name data' request_id =
      dispatch extract_stream_delta_text
        (record st {
          completed_web_search_call_ids =
              record_completed_web_search_call_ids S st.completed_web_search_call_ids event_name
                data';
        })
        event_name data' request_id

  unfoldable pub map_backend_event :
      (String → Option String) → StreamState → String → String → Option String → Outcome
  map_backend_event extract_stream_delta_text st event_name data' request_id =
      unless_failed (parse_backend_failure_event S event_name data') extract_stream_delta_text st
        event_name data' request_id
