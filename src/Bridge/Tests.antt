-- ===== src/Bridge/Tests.antt =====
-- The theorems on streams at concrete events, with a parser that knows a few texts.
use cld_gateway.Base.{
  ◌≡◌, ◌≤◌, refl, true, false, none, some, [], ◌++◌, arith, length, str_eq, if◌then◌else◌,
}
use cld_gateway.Json.{string, object, end, field, get_field}
use cld_gateway.Codex.Serde.{Serde}
use cld_gateway.Codex.Completed.{u32_max, contains}
use cld_gateway.Codex.Failure.{parse_backend_failure_event, failure_message, find_string_field}
use cld_gateway.Bridge.State.{
  StreamState, new, with_context_management, with_structured_output_schema,
  open_text_block_if_needed, add_block,
}
use cld_gateway.Bridge.WebSearch.{WebSearchCall, emit_web_search_call_blocks}
use cld_gateway.Bridge.Handlers.{Outcome, handle_output_text_delta}
use cld_gateway.Bridge.Complete.{
  event_list, dispatch, map_backend_event, flush_structured_output, finalize_message,
}
use cld_gateway.Bridge.Protocol.{Client, client_run, fresh, all_closed}
use cld_gateway.Bridge.Protocol.Tracks.{Follows, Sends}
use cld_gateway.Bridge.Protocol.Dispatch.{
  fresh-Follows, map_backend_event-Follows, map_backend_event_failed,
}
use cld_gateway.Bridge.Protocol.Finish.{finalize_message-ended}
use cld_gateway.Bridge.Protocol.TwiceStopped.{web_search_stopped_twice}
use cld_gateway.Base.{sort_by, String, List, ◌∷◌, All}
use cld_gateway.Base.Dict.{get}
use cld_gateway.Base.Result.{ok, err}
use cld_gateway.Base.Text.{trim}
use cld_gateway.Codex.Types.{function}
use cld_gateway.ToolArgs.{
  sanitized_tool_args_for_kind, parse_tool_args_object_for_kind, parse_tool_args_object,
  apply_policies, agent_policy, read_policy,
}
use cld_gateway.Bridge.Event.{Event, content_block_delta_input_json}
use cld_gateway.Bridge.WebSearch.{web_search_calls_from_completed}
use cld_gateway.Bridge.Complete.{
  tool_args_events, tool_args_delta_from_object, by_index, handle_completed,
}
use cld_gateway.Bridge.Protocol.Stream.{Continues, feed, feed-Follows}
use cld_gateway.Bridge.Handlers.{handle_reasoning_delta, parse_delta_event_fields}
use cld_gateway.Bridge.Protocol.Completed.{
  counted, handle_completed-ended, handle_completed_refused,
}

-- A parser that reads one text as an object with a message.
abbrev few_texts : Serde
few_texts = record {
  parse = λ t.
      if str_eq t "boom" then some (object (field "message" (string "overloaded") end)) else none;
  parse_error = λ t. "expected value";
  print = λ v. some "{}";
  decode_completed = λ v. none;
}

-- The state of a request without options.
abbrev plain_state : StreamState
plain_state = new

plain_state-Follows : Follows plain_state fresh
unfolding with_structured_output_schema with_context_management
plain_state-Follows = fresh-Follows none none

abbrev search : WebSearchCall
search = record {
  call_id = "ws_1";
  server_tool_use_id = "srvtoolu_ws_1";
  query = some "rust";
  results = [];
}

abbrev text_delta : Outcome
text_delta = map_backend_event few_texts some plain_state "response.output_text.delta" "hello" none

text_works : parse_backend_failure_event few_texts "response.output_text.delta" "hello" ≡ none
unfolding parse_backend_failure_event
text_works = refl

text_fits : length text_delta.state.blocks ≤ u32_max
unfolding map_backend_event dispatch parse_backend_failure_event handle_output_text_delta
    open_text_block_if_needed add_block
text_fits = ground arith

error_fails : parse_backend_failure_event few_texts "error" "boom" ≡ some "error: overloaded"
unfolding parse_backend_failure_event failure_message find_string_field get_field
error_fails = refl

flush_fits :
    length (flush_structured_output few_texts (record plain_state { completed = true })).1.blocks
    ≤ u32_max
unfolding flush_structured_output
flush_fits = ground arith

search_fits : length (emit_web_search_call_blocks plain_state search).1.blocks ≤ u32_max
unfolding emit_web_search_call_blocks contains
search_fits = ground arith

search_is_new : contains plain_state.emitted_web_search_call_ids search.call_id ≡ false
unfolding contains
search_is_new = refl

map_backend_event-Follows_example : Sends text_delta.state fresh (event_list text_delta.events)
map_backend_event-Follows_example =
    map_backend_event-Follows few_texts some plain_state plain_state-Follows
      "response.output_text.delta" "hello" none text_works refl text_fits

map_backend_event_failed_example :
    (client_run fresh
        (event_list (map_backend_event few_texts some plain_state "error" "boom" none).events)
      ≡ some (record fresh { ended = true }))
    × ((map_backend_event few_texts some plain_state "error" "boom" none).state.completed ≡ true)
map_backend_event_failed_example =
    map_backend_event_failed few_texts some plain_state plain_state-Follows "error" "boom"
      "error: overloaded" none error_fails

finalize_message-ended_example :
    (c : Client) × (client_run fresh (finalize_message few_texts plain_state).0 ≡ some c)
    × (c.ended ≡ true)
    × (all_closed c.open_flags ≡ true)
finalize_message-ended_example =
    finalize_message-ended few_texts plain_state plain_state-Follows refl flush_fits

web_search_stopped_twice_example :
    client_run fresh (
      event_list (emit_web_search_call_blocks plain_state search).0
      ++ (finalize_message few_texts (emit_web_search_call_blocks plain_state search).1).0)
    ≡ none
web_search_stopped_twice_example =
    web_search_stopped_twice few_texts plain_state plain_state-Follows search search_is_new refl
      search_fits

-- A stream in which one tool call was announced, with the text of its arguments.
abbrev tool_state : String → StreamState
tool_state text = record new {
  next_block_index = 1;
  blocks = record { index = 0; closed = false } ∷ [];
  tool_blocks_by_call_id = ("call_1", 0) ∷ [];
  tool_name_by_call_id = ("call_1", "Read") ∷ [];
  tool_kind_by_call_id = ("call_1", function) ∷ [];
  tool_args_buf_by_call_id = ("call_1", text) ∷ [];
}

abbrev one_open : Client
one_open = record { open_flags = true ∷ []; ended = false }

tool_state-Follows : (text : String) → Follows (tool_state text) one_open
tool_state-Follows text = record {
  running = refl;
  started = refl;
  counted = refl;
  indexed = (refl, tt);
  text_open = tt;
  thinking_open = tt;
  tools_open = (refl, tt);
  exactly = λ e. refl;
}

abbrev empty_arguments : List Event
empty_arguments = content_block_delta_input_json 0 "{}" ∷ []

empty_arguments_pass :
    tool_args_events few_texts
      (tool_state "")
      (sort_by by_index (tool_state "").tool_blocks_by_call_id)
    ≡ ok empty_arguments
unfolding tool_args_events sort_by sanitized_tool_args_for_kind parse_tool_args_object_for_kind
    parse_tool_args_object apply_policies agent_policy read_policy trim tool_args_delta_from_object
    get
empty_arguments_pass = refl

bad_arguments_refused :
    tool_args_events few_texts
      (tool_state "{")
      (sort_by by_index (tool_state "{").tool_blocks_by_call_id)
    ≡ err "tool_use.input is not valid JSON: expected value"
unfolding tool_args_events sort_by sanitized_tool_args_for_kind parse_tool_args_object_for_kind
    parse_tool_args_object apply_policies agent_policy read_policy trim tool_args_delta_from_object
    get
bad_arguments_refused = refl

no_searches : web_search_calls_from_completed few_texts "{}" ≡ []
unfolding web_search_calls_from_completed
no_searches = refl

completed_fits :
    length
      (flush_structured_output few_texts
        (record (counted few_texts (tool_state "") (tool_state-Follows "") "{}") {
          completed = true;
        })).1.blocks
    ≤ u32_max
unfolding flush_structured_output
completed_fits = ground arith

handle_completed-ended_example :
    (c : Client) × (client_run one_open (handle_completed few_texts (tool_state "") "{}").0
      ≡ some c)
    × (c.ended ≡ true)
    × (all_closed c.open_flags ≡ true)
handle_completed-ended_example =
    handle_completed-ended few_texts (tool_state "") (tool_state-Follows "") "{}" refl no_searches
      empty_arguments_pass completed_fits

handle_completed_refused_example :
    (client_run one_open (handle_completed few_texts (tool_state "{") "{}").0
      ≡ some (record one_open { ended = true }))
    × ((handle_completed few_texts (tool_state "{") "{}").1.completed ≡ false)
handle_completed_refused_example =
    handle_completed_refused few_texts (tool_state "{") (tool_state-Follows "{") "{}"
      "tool_use.input is not valid JSON: expected value" no_searches bad_arguments_refused

-- A text, and a thought that does not parse.
abbrev two_events : List (String × String)
two_events = ("response.output_text.delta", "hello") ∷ ("response.reasoning_text.delta", "{}") ∷ []

two_events_continue : All (Continues few_texts) two_events
unfolding parse_backend_failure_event
two_events_continue = ((refl, refl), ((refl, refl), tt))

two_events_fit : length (feed few_texts some none two_events plain_state).1.blocks ≤ u32_max
unfolding feed map_backend_event dispatch parse_backend_failure_event handle_output_text_delta
    open_text_block_if_needed add_block handle_reasoning_delta parse_delta_event_fields
two_events_fit = ground arith

feed-Follows_example :
    Sends
      (feed few_texts some none two_events plain_state).1
      fresh
      (feed few_texts some none two_events plain_state).0
feed-Follows_example =
    feed-Follows few_texts some none two_events plain_state plain_state-Follows two_events_continue
      two_events_fit
