-- ===== src/Bridge/WebSearch.antt =====
-- Web-search calls in old_rust/crates/gateway-http-anthropic/src/sse_bridge.rs.
use Prim.Native.String.{◌++◌ as append}
use text.Mathlib.Text.{starts_with}
use cld_gateway.Base.{
  ℕ, String, Option, none, some, List, [], ◌∷◌, ◌++◌, ◌||◌, ◌==◌, not, opt_eq, if◌then◌else◌,
  unwrap_or, or_else, filter_map,
}
use cld_gateway.Base.Text.{is_ascii_alphanumeric, filter_chars, is_empty}
use cld_gateway.Json.{Json, Fields, object, string, get, as_str, as_array, insert_field}
use cld_gateway.Codex.Serde.{Serde}
use cld_gateway.Codex.ToolCalls.{◌>>=◌, get_str, pointer}
use cld_gateway.Codex.Completed.{
  own_call_id, indexed_call_id, is_unfinished, output_fallback, indexed_filter_map, response_output,
  contains,
}
use cld_gateway.Bridge.Event.{
  Event, fields, content_block_start_server_tool_use, content_block_start_web_search_tool_result,
  content_block_stop,
}
use cld_gateway.Bridge.State.{StreamState, add_block}

pub record WebSearchCall : Type 0 where
  pub call_id : String
  pub server_tool_use_id : String
  pub query : Option String
  pub results : List Json

unfoldable pub server_tool_use_id : String → String
unfolding filter_chars is_ascii_alphanumeric
server_tool_use_id call_id =
    let safe_suffix = filter_chars (λ c. is_ascii_alphanumeric c || c == b'_') call_id in
    if is_empty safe_suffix
    then "srvtoolu_web_search"
    else if starts_with safe_suffix "srvtoolu_"
    then safe_suffix
    else append "srvtoolu_" safe_suffix

unfoldable pub web_search_query : Json → Option String
unfolding pointer get as_str
web_search_query value =
    or_else (pointer "action" "query" value)
      (or_else (pointer "input" "query" value) (get "query" value))
    >>= as_str

abbrev pub with_text : String → Option String → Fields → Fields
with_text key none m = m
with_text key (some text) m = insert_field key (string text) m

unfoldable pub web_search_result_from_source : Json → Option Json
unfolding get_str insert_field
web_search_result_from_source source = do
  url ← get_str "url" source
  some (
      object (
        with_text "encrypted_content" (get_str "encrypted_content" source) (
          with_text "page_age" (get_str "page_age" source) (
            with_text "title" (get_str "title" source)
              (fields (("type", string "web_search_result") ∷ ("url", string url) ∷ []))))))

unfoldable pub web_search_results : Json → List Json
unfolding pointer get as_array web_search_result_from_source
web_search_results value =
    filter_map web_search_result_from_source
      (unwrap_or (or_else (pointer "action" "sources" value) (get "sources" value) >>= as_array) [])

abbrev pub web_search_call : String → Json → WebSearchCall
web_search_call call_id value = record {
  call_id = call_id;
  server_tool_use_id = server_tool_use_id call_id;
  query = web_search_query value;
  results = web_search_results value;
}

unfoldable pub web_search_call_from_value : String → Json → Option WebSearchCall
web_search_call_from_value event_name event =
    if not (opt_eq (get_str "type" event) (some event_name))
    then none
    else some (
        web_search_call
          (unwrap_or (or_else (own_call_id event) (indexed_call_id event_name event)) event_name)
          event)

unfoldable pub web_search_call_from_item : Json → String → Option WebSearchCall
web_search_call_from_item item fallback =
    if not (opt_eq (get_str "type" item) (some "web_search_call"))
    then none
    else if is_unfinished (get_str "status" item)
    then none
    else some (web_search_call (unwrap_or (own_call_id item) fallback) item)

abbrev pub calls_of : Option Json → List WebSearchCall
calls_of none = []
calls_of (some value) =
    indexed_filter_map (λ i item. web_search_call_from_item item (output_fallback i)) 0
      (response_output value)

unfoldable pub web_search_calls_from_completed : Serde → String → List WebSearchCall
web_search_calls_from_completed S data' = calls_of (S.parse data')

-- The four events of a call, for the indices of its two blocks.
abbrev pub call_events : WebSearchCall → ℕ → ℕ → List Event
call_events call server_tool_index result_index =
    content_block_start_server_tool_use server_tool_index call.server_tool_use_id call.query
    ∷ content_block_stop server_tool_index
    ∷ content_block_start_web_search_tool_result result_index call.server_tool_use_id call.results
    ∷ content_block_stop result_index
    ∷ []

unfoldable pub emit_web_search_call_blocks :
    StreamState → WebSearchCall → Option (List Event) × StreamState
unfolding add_block
emit_web_search_call_blocks st call =
    if contains st.emitted_web_search_call_ids call.call_id
    then (none, st)
    else (let marked = record st {
      emitted_web_search_call_ids = st.emitted_web_search_call_ids ++ call.call_id ∷ [];
    } in
        let (server_tool_index, st1) = add_block marked in
        let (result_index, st2) = add_block st1 in
        (some (call_events call server_tool_index result_index), st2))
