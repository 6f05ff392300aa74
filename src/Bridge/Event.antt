-- ===== src/Bridge/Event.antt =====
-- The events that old_rust/crates/gateway-http-anthropic/src/sse_bridge.rs sends: a name, and a
-- payload whose printed text is the event's data.
use cld_gateway.Base.{ℕ, String, Option, none, some, List, [], ◌∷◌, ltb, if◌then◌else◌}
use cld_gateway.Base.Int.{pos, saturating_sub}
use cld_gateway.Json.{
  Json, Fields, int, null, number, string, array, object, end, insert_field, from_list,
}
use cld_gateway.Codex.Types.{CodexTokenUsage}

pub record Event : Type 0 where
  pub event : String
  pub payload : Json

-- `json!({ .. })`: the keys go in one by one.
abbrev pub fields : List (String × Json) → Fields
fields [] = end
fields ((k, v) ∷ m) = insert_field k v (fields m)

abbrev pub json_object : List (String × Json) → Json
json_object m = object (fields m)

abbrev pub json_number : ℕ → Json
json_number n = number (int (pos n))

-- `content_block_start` of a block.
abbrev pub content_block_start : ℕ → Json → Event
content_block_start index block = record {
  event = "content_block_start";
  payload = json_object (
      ("type", string "content_block_start")
      ∷ ("index", json_number index)
      ∷ ("content_block", block)
      ∷ []);
}

unfoldable pub content_block_start_text : ℕ → Event
unfolding insert_field
content_block_start_text index =
    content_block_start index (json_object (("type", string "text") ∷ ("text", string "") ∷ []))

unfoldable pub content_block_start_tool_use : ℕ → String → String → Event
unfolding insert_field
content_block_start_tool_use index call_id name = content_block_start index (
    json_object (
      ("type", string "tool_use")
      ∷ ("id", string call_id)
      ∷ ("name", string name)
      ∷ ("input", object end)
      ∷ []))

abbrev pub query_input : Option String → Json
query_input none = object end
query_input (some query_text) = json_object (("query", string query_text) ∷ [])

unfoldable pub content_block_start_server_tool_use : ℕ → String → Option String → Event
unfolding insert_field
content_block_start_server_tool_use index server_tool_use_id query = content_block_start index (
    json_object (
      ("type", string "server_tool_use")
      ∷ ("id", string server_tool_use_id)
      ∷ ("name", string "web_search")
      ∷ ("input", query_input query)
      ∷ []))

unfoldable pub content_block_start_web_search_tool_result : ℕ → String → List Json → Event
unfolding insert_field
content_block_start_web_search_tool_result index server_tool_use_id results =
    content_block_start index (
      json_object (
        ("type", string "web_search_tool_result")
        ∷ ("tool_use_id", string server_tool_use_id)
        ∷ ("content", array (from_list results))
        ∷ []))

unfoldable pub content_block_start_thinking : ℕ → Event
unfolding insert_field
content_block_start_thinking index = content_block_start index (
    json_object
      (("type", string "thinking") ∷ ("thinking", string "") ∷ ("signature", string "") ∷ []))

abbrev pub content_block_delta : ℕ → Json → Event
content_block_delta index delta = record {
  event = "content_block_delta";
  payload = json_object (
      ("type", string "content_block_delta")
      ∷ ("index", json_number index)
      ∷ ("delta", delta)
      ∷ []);
}

unfoldable pub content_block_delta_text : ℕ → String → Event
unfolding insert_field
content_block_delta_text index text =
    content_block_delta index
      (json_object (("type", string "text_delta") ∷ ("text", string text) ∷ []))

unfoldable pub content_block_delta_input_json : ℕ → String → Event
unfolding insert_field
content_block_delta_input_json index delta =
    content_block_delta index
      (json_object (("type", string "input_json_delta") ∷ ("partial_json", string delta) ∷ []))

unfoldable pub content_block_delta_thinking : ℕ → String → Event
unfolding insert_field
content_block_delta_thinking index delta =
    content_block_delta index
      (json_object (("type", string "thinking_delta") ∷ ("thinking", string delta) ∷ []))

unfoldable pub content_block_stop : ℕ → Event
unfolding insert_field
content_block_stop index = record {
  event = "content_block_stop";
  payload = json_object (("type", string "content_block_stop") ∷ ("index", json_number index) ∷ []);
}

abbrev pub with_server_tool_use : ℕ → Fields → Fields
with_server_tool_use requests m =
    if ltb 0 requests
    then insert_field "server_tool_use"
        (json_object (
          ("web_search_requests", json_number requests)
          ∷ ("web_fetch_requests", json_number 0)
          ∷ []))
        m
    else m

unfoldable pub anthropic_usage_value : CodexTokenUsage → Json
unfolding insert_field
anthropic_usage_value usage = object (
    with_server_tool_use usage.web_search_requests (
      fields (
        ("input_tokens", number (int (saturating_sub usage.input_tokens usage.cached_input_tokens)))
        ∷ ("cache_creation_input_tokens", json_number 0)
        ∷ ("cache_read_input_tokens", number (int usage.cached_input_tokens))
        ∷ ("output_tokens", number (int usage.output_tokens))
        ∷ [])))

abbrev pub with_field : String → Option Json → Fields → Fields
with_field key none m = m
with_field key (some v) m = insert_field key v m

abbrev pub usage_value : Option CodexTokenUsage → Option Json
usage_value none = none
usage_value (some usage) = some (anthropic_usage_value usage)

unfoldable pub message_delta : String → Option CodexTokenUsage → Option Json → Event
unfolding insert_field anthropic_usage_value
message_delta stop_reason usage context_management = record {
  event = "message_delta";
  payload = object (
      with_field "context_management" context_management (
        with_field "usage" (usage_value usage) (
          fields (
            ("type", string "message_delta")
            ∷ (
              "delta",
              json_object (("stop_reason", string stop_reason) ∷ ("stop_sequence", null) ∷ []),
            )
            ∷ []))));
}

unfoldable pub message_stop : Event
unfolding insert_field
message_stop = record {
  event = "message_stop";
  payload = json_object (("type", string "message_stop") ∷ []);
}

unfoldable pub error_event : String → List Event
unfolding insert_field
error_event message =
    record {
      event = "error";
      payload = json_object (
          ("type", string "error")
          ∷ (
            "error",
            json_object (("type", string "backend_error") ∷ ("message", string message) ∷ []),
          )
          ∷ []);
    }
    ∷ []
