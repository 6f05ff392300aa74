-- ===== src/Bridge/Protocol/Growth.antt =====
-- No event takes a block away, so that a bound on the blocks at the end of a stream holds before.
use cld_gateway.Base.{
  if_holds, ℕ, ◌≤◌, String, ◌≡◌, Bool, true, false, Option, none, some, List, [], ◌∷◌, ◌++◌, ◌||◌,
  not, arith, length, length-append, str_eq, opt_eq, filter, is_some,
}
use cld_gateway.Base.Dict
use cld_gateway.Base.Text.{is_blank}
use cld_gateway.Json.{Json, get}
use cld_gateway.Codex.Types.{CodexToolCall}
use cld_gateway.Codex.Serde.{Serde}
use cld_gateway.Codex.Completed.{contains}
use cld_gateway.Codex.ToolCalls.{◌>>=◌, get_str, parse_output_item_tool_call}
use cld_gateway.Codex.OutputText.{message_item_output_texts}
use cld_gateway.Bridge.Event.{Event}
use cld_gateway.Bridge.State.{
  StreamState, BlockState, add_block, next_index, open_text, open_thinking, tool_block,
  open_text_block_if_needed, open_thinking_block_if_needed, ensure_tool_block,
}
use cld_gateway.Bridge.WebSearch.{
  WebSearchCall, emit_web_search_call_blocks, web_search_call_from_item, web_search_call_from_value,
}
use cld_gateway.Bridge.Handlers.{
  Outcome, send_text, output_text_delta, handle_output_text_delta, message_texts,
  handle_message_item, announce_item, handle_tool_call_item, emit_call, other_item, output_item,
  handle_output_item, handle_web_search_call_item, handle_web_search_call_event, tool_arg_delta,
  argument_fields, thinking_fields, handle_tool_arg_delta, handle_reasoning_delta,
  parse_delta_event_fields,
}
use cld_gateway.Bridge.Complete.{dispatch}

-- The later state has at least the blocks of the earlier one.
abbrev pub Grows : StreamState → StreamState → Type 0
Grows st st' = length st.blocks ≤ length st'.blocks

abbrev GrowsIn : StreamState → Option (List Event) × StreamState → Type 0
GrowsIn st (events, st') = Grows st st'

more_blocks : (bs more : List BlockState) → length bs ≤ length (bs ++ more)
more_blocks bs more = omega (arith, length-append bs more)

module _ (st : StreamState) where
  same-Grows : Grows st st
  same-Grows = omega arith

  add_block-Grows : Grows st (add_block st).1
  unfolding add_block
  add_block-Grows = more_blocks st.blocks _

  open_text-Grows : (o : Option ℕ) → Grows st (open_text o st).1
  open_text-Grows none = add_block-Grows
  open_text-Grows (some i) = same-Grows

  open_thinking-Grows : (o : Option ℕ) → Grows st (open_thinking o st).1
  open_thinking-Grows none = add_block-Grows
  open_thinking-Grows (some i) = same-Grows

  tool_block-Grows : (call_id : String) (o : Option ℕ) → Grows st (tool_block call_id o st).1
  tool_block-Grows call_id none = add_block-Grows
  tool_block-Grows call_id (some i) = same-Grows

  send_text-Grows : (text : String) → Grows st (send_text text st).1
  unfolding open_text_block_if_needed
  send_text-Grows text = open_text-Grows st.active_text_index

  output_text_delta-Grows : (o : Option String) → Grows st (output_text_delta o st).1
  output_text_delta-Grows none = same-Grows
  output_text_delta-Grows (some text) =
      if_holds (GrowsIn st) (is_blank text) (λ _. same-Grows)
        (λ _.
          if_holds (GrowsIn st) (is_some st.structured_output_schema) (λ _. same-Grows)
            (λ _. send_text-Grows text))

  message_texts-Grows : (ts : List String) → Grows st (message_texts ts st).1
  unfolding open_text_block_if_needed
  message_texts-Grows [] = same-Grows
  message_texts-Grows (t ∷ ts) =
      if_holds (GrowsIn st) (is_some st.structured_output_schema) (λ _. same-Grows)
        (λ _. open_text-Grows st.active_text_index)

  emit-Grows : (o : Option WebSearchCall) → Grows st (emit_call o st).1
  unfolding emit_web_search_call_blocks add_block
  emit-Grows none = same-Grows
  emit-Grows (some call) =
      if_holds (GrowsIn st) (contains st.emitted_web_search_call_ids call.call_id) (λ _. same-Grows)
        (λ _. omega (
          arith,
          more_blocks st.blocks (record { index = st.next_block_index; closed = false } ∷ []),
          more_blocks (st.blocks ++ record { index = st.next_block_index; closed = false } ∷ [])
              (record { index = next_index st.next_block_index; closed = false } ∷ []),
        ))

  other_item-Grows : (o : Option Json) → Grows st (other_item o st).1
  unfolding handle_message_item handle_web_search_call_item
  other_item-Grows none = same-Grows
  other_item-Grows (some item) =
      if_holds (GrowsIn st) (opt_eq (get_str "type" item) (some "web_search_call"))
        (λ _. emit-Grows (web_search_call_from_item item "output_item"))
        (λ _.
          if_holds (GrowsIn st) (opt_eq (get_str "type" item) (some "message"))
            (λ _.
              if_holds (GrowsIn st) st.saw_output_text_delta (λ _. same-Grows)
                (λ _.
                  message_texts-Grows
                    (filter (λ t. not (is_blank t)) (message_item_output_texts item))))
            (λ _. same-Grows))

  announce-Grows :
      (call : CodexToolCall) (final_item : Bool) (request_id : Option String) (o : Option ℕ)
      → Grows st (announce_item call final_item request_id (tool_block call.call_id o st)).state
  announce-Grows call true request_id (some i) = same-Grows
  announce-Grows call false request_id (some i) = same-Grows
  announce-Grows call true request_id none = add_block-Grows
  announce-Grows call false request_id none = add_block-Grows

  module _ (S : Serde) (extract : String → Option String) where
    output_item-Grows :
        (o : Option CodexToolCall) (event_name data' : String) (request_id : Option String)
        → Grows st (output_item S o st event_name data' request_id).state
    unfolding handle_tool_call_item ensure_tool_block
    output_item-Grows (some call) event_name data' request_id =
        announce-Grows call (str_eq event_name "response.output_item.done") request_id
          (Dict.get call.call_id st.tool_blocks_by_call_id)
    output_item-Grows none event_name data' request_id =
        other_item-Grows (S.parse data' >>= get "item")

    argument_fields-Grows :
        (o : Option (Option String × String)) → Grows st (argument_fields o st).1
    unfolding ensure_tool_block
    argument_fields-Grows none = same-Grows
    argument_fields-Grows (some (none, d)) = delta-Grows st.last_tool_call_id
      where
        delta-Grows : (o : Option String) → Grows st (tool_arg_delta o d st).1
        delta-Grows none = same-Grows
        delta-Grows (some id) = tool_block-Grows id (Dict.get id st.tool_blocks_by_call_id)
    argument_fields-Grows (some (some id, d)) =
        tool_block-Grows id (Dict.get id st.tool_blocks_by_call_id)

    thinking_fields-Grows :
        (o : Option (Option String × String)) → Grows st (thinking_fields o st).1
    unfolding open_thinking_block_if_needed
    thinking_fields-Grows none = same-Grows
    thinking_fields-Grows (some (id, d)) = open_thinking-Grows st.active_thinking_index

    pub dispatch-Grows :
        (event_name data' : String) (request_id : Option String)
        → str_eq event_name "response.completed" ≡ false
        → Grows st (dispatch S extract st event_name data' request_id).state
    unfolding dispatch handle_output_text_delta handle_output_item handle_web_search_call_event
        handle_tool_arg_delta handle_reasoning_delta
    dispatch-Grows event_name data' request_id continues =
        let P : Outcome → Type 0 = λ o. Grows st o.state in
        if_holds P (str_eq event_name "response.output_text.delta")
          (λ _. output_text_delta-Grows (extract data'))
          (λ _.
            if_holds P
              (str_eq event_name "response.output_item.added"
                || str_eq event_name "response.output_item.done")
              (λ _.
                output_item-Grows (parse_output_item_tool_call S event_name data') event_name data'
                  request_id)
              (λ _.
                if_holds P (str_eq event_name "response.web_search_call.completed")
                  (λ _. emit-Grows (S.parse data' >>= web_search_call_from_value event_name))
                  (λ _.
                    if_holds P
                      (str_eq event_name "response.function_call_arguments.delta"
                        || str_eq event_name "response.custom_tool_call_input.delta")
                      (λ _. argument_fields-Grows (parse_delta_event_fields S data'))
                      (λ _.
                        if_holds P
                          (str_eq event_name "response.reasoning_text.delta"
                            || str_eq event_name "response.reasoning_summary_text.delta")
                          (λ _. thinking_fields-Grows (parse_delta_event_fields S data'))
                          (λ _.
                            if_holds P (str_eq event_name "response.completed") (λ last. cc)
                              (λ _. same-Grows))))))
