-- ===== src/Bridge/Protocol/Dispatch.antt =====
-- Every backend event but the last one: what the bridge sends for it is accepted.
use cld_gateway.Base.{
  if_holds, ◌≤◌, String, ◌≡◌, refl, true, false, Option, none, some, ◌||◌, length, str_eq, opt_eq,
  or_else, filter, not,
}
use cld_gateway.Base.Text.{is_blank}
use cld_gateway.Json.{Json}
use cld_gateway.Codex.Types.{CodexToolCall}
use cld_gateway.Codex.Serde.{Serde}
use cld_gateway.Codex.Completed.{u32_max, record_completed_web_search_call_ids}
use cld_gateway.Codex.Failure.{parse_backend_failure_event}
use cld_gateway.Codex.ToolCalls.{◌>>=◌, get_str, parse_output_item_tool_call}
use cld_gateway.Codex.OutputText.{message_item_output_texts}
use cld_gateway.Json.{get}
use cld_gateway.Bridge.Event.{error_event}
use cld_gateway.Bridge.State.{
  StreamState, new, with_context_management, with_structured_output_schema,
}
use cld_gateway.Bridge.WebSearch.{
  WebSearchCall, web_search_call_from_item, web_search_call_from_value,
}
use cld_gateway.Bridge.Handlers.{
  Outcome, quiet, handle_output_text_delta, handle_message_item, emit_call, other_item, output_item,
  handle_output_item, handle_web_search_call_item, handle_web_search_call_event,
  handle_tool_arg_delta, handle_reasoning_delta, parse_delta_event_fields, argument_fields,
  thinking_fields,
}
use cld_gateway.Bridge.Complete.{event_list, dispatch, map_backend_event}
use cld_gateway.Bridge.Protocol.{Client, client_run, decode, fresh}
use cld_gateway.Bridge.Protocol.Tracks.{Follows, Sends}
use cld_gateway.Bridge.Protocol.Searches.{emit_Sends}
use cld_gateway.Bridge.Protocol.Steps.{
  nothing_sent, output_text_delta_Sent, message_texts_Sent, send_thinking_Sent, tool_arg_delta_Sent,
  tool_call_Sends,
}

-- If the blocks of the outcome are not too many, its events are accepted.
abbrev pub Accepted : Client → Outcome → Type 0
Accepted c o = length o.state.blocks ≤ u32_max → Sends o.state c (event_list o.events)

-- The reader of a new stream follows the state of a new request, whatever its context management
-- and its schema for structured output.
pub fresh-Follows :
    (context schema : Option Json)
    → Follows (with_structured_output_schema schema (with_context_management context new)) fresh
unfolding with_structured_output_schema with_context_management
fresh-Follows context schema = record {
  running = refl;
  started = refl;
  counted = refl;
  indexed = tt;
  text_open = tt;
  thinking_open = tt;
  tools_open = tt;
  exactly = λ e. refl;
}

module _ (S : Serde) (extract : String → Option String) (st : StreamState) {c : Client}
    (f : Follows st c) where
  text_Accepted : (data' : String) → Accepted c (quiet (handle_output_text_delta extract st data'))
  unfolding handle_output_text_delta
  text_Accepted data' fits = output_text_delta_Sent st f (extract data') fits

  emit_call-Accepted : (o : Option WebSearchCall) → Accepted c (quiet (emit_call o st))
  emit_call-Accepted none fits = nothing_sent st f
  emit_call-Accepted (some call) fits = emit_Sends st f call fits

  other_item-Accepted : (o : Option Json) → Accepted c (quiet (other_item o st))
  unfolding handle_message_item handle_web_search_call_item
  other_item-Accepted none fits = nothing_sent st f
  other_item-Accepted (some item) fits =
      if_holds (λ r. Accepted c (quiet r)) (opt_eq (get_str "type" item) (some "web_search_call"))
        (λ _. emit_call-Accepted (web_search_call_from_item item "output_item"))
        (λ _.
          if_holds (λ r. Accepted c (quiet r)) (opt_eq (get_str "type" item) (some "message"))
            (λ _.
              if_holds (λ r. Accepted c (quiet r)) st.saw_output_text_delta
                (λ _ fits. nothing_sent st f)
                (λ _ fits.
                  message_texts_Sent st f
                    (filter (λ t. not (is_blank t)) (message_item_output_texts item)) fits))
            (λ _ fits. nothing_sent st f))
        fits

  output_item-Accepted :
      (o : Option CodexToolCall) (event_name data' : String) (request_id : Option String)
      → Accepted c (output_item S o st event_name data' request_id)
  output_item-Accepted (some call) event_name data' request_id fits =
      tool_call_Sends st f call (str_eq event_name "response.output_item.done") request_id fits
  output_item-Accepted none event_name data' request_id fits =
      other_item-Accepted (S.parse data' >>= get "item") fits

  arguments_Accepted :
      (o : Option (Option String × String)) → Accepted c (quiet (argument_fields o st))
  arguments_Accepted none fits = nothing_sent st f
  arguments_Accepted (some (call_id, d)) fits =
      tool_arg_delta_Sent st f (or_else call_id st.last_tool_call_id) d fits

  reasoning_Accepted :
      (o : Option (Option String × String)) → Accepted c (quiet (thinking_fields o st))
  reasoning_Accepted none fits = nothing_sent st f
  reasoning_Accepted (some (call_id, d)) fits = send_thinking_Sent st f d fits

  pub dispatch-Accepted :
      (event_name data' : String) (request_id : Option String)
      → str_eq event_name "response.completed" ≡ false
      → Accepted c (dispatch S extract st event_name data' request_id)
  unfolding dispatch handle_output_item handle_web_search_call_event handle_tool_arg_delta
      handle_reasoning_delta
  dispatch-Accepted event_name data' request_id continues =
      if_holds (Accepted c) (str_eq event_name "response.output_text.delta")
        (λ _. text_Accepted data')
        (λ _.
          if_holds (Accepted c)
            (str_eq event_name "response.output_item.added"
              || str_eq event_name "response.output_item.done")
            (λ _.
              output_item-Accepted (parse_output_item_tool_call S event_name data') event_name data'
                request_id)
            (λ _.
              if_holds (Accepted c) (str_eq event_name "response.web_search_call.completed")
                (λ _. emit_call-Accepted (S.parse data' >>= web_search_call_from_value event_name))
                (λ _.
                  if_holds (Accepted c)
                    (str_eq event_name "response.function_call_arguments.delta"
                      || str_eq event_name "response.custom_tool_call_input.delta")
                    (λ _. arguments_Accepted (parse_delta_event_fields S data'))
                    (λ _.
                      if_holds (Accepted c)
                        (str_eq event_name "response.reasoning_text.delta"
                          || str_eq event_name "response.reasoning_summary_text.delta")
                        (λ _. reasoning_Accepted (parse_delta_event_fields S data'))
                        (λ _.
                          if_holds (Accepted c) (str_eq event_name "response.completed")
                            (λ last. cc) (λ _ fits. nothing_sent st f))))))

module _ (S : Serde) (extract : String → Option String) (st : StreamState) {c : Client}
    (f : Follows st c) where
  -- For a state that the reader of the stream follows, and a backend event that is neither a
  -- failure nor `response.completed`: if the number of blocks after it is at most the greatest
  -- u32, then what the bridge sends for the event is accepted by the reader, which follows the
  -- state after it. So blocks start in order, and text, thinking and tool blocks receive deltas
  -- only while they are open.
  pub map_backend_event-Follows :
      (event_name data' : String) (request_id : Option String)
      → parse_backend_failure_event S event_name data' ≡ none
      → str_eq event_name "response.completed" ≡ false
      → length (map_backend_event S extract st event_name data' request_id).state.blocks ≤ u32_max
      → Sends
          (map_backend_event S extract st event_name data' request_id).state
          c
          (event_list (map_backend_event S extract st event_name data' request_id).events)
  unfolding map_backend_event
  map_backend_event-Follows event_name data' request_id working continues fits = rw working (
      dispatch-Accepted S extract
        (record st {
          completed_web_search_call_ids =
              record_completed_web_search_call_ids S st.completed_web_search_call_ids event_name
                data';
        })
        f event_name data' request_id continues (rw working at fits))

  -- For a state that the reader follows: a failure of the backend is sent as events that are
  -- accepted and end the stream, with the blocks as they were, and the state is completed.
  pub map_backend_event_failed :
      (event_name data' message : String) (request_id : Option String)
      → parse_backend_failure_event S event_name data' ≡ some message
      → (client_run c
            (event_list (map_backend_event S extract st event_name data' request_id).events)
          ≡ some (record c { ended = true }))
        × ((map_backend_event S extract st event_name data' request_id).state.completed ≡ true)
  unfolding map_backend_event client_run decode error_event
  map_backend_event_failed event_name data' message request_id failed =
      rw failed (rw f.running refl, refl)
