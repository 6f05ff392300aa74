-- ===== src/Codex/ToolCalls.antt =====
-- old_rust/crates/gateway-backend-codex/src/tool_calls.rs.
use cld_gateway.Base.{
  String, Bool, true, false, Option, none, some, List, str_eq, ◌||◌, if◌then◌else◌, unwrap_or,
  or_else,
}
use cld_gateway.Base.Text.{trim, is_empty}
use cld_gateway.Json.{Json, string, object, end, field, Fields, get, as_str, as_array, insert_field}
use cld_gateway.Codex.Types.{CodexToolCall, function, custom, tool_search, local_shell}
use cld_gateway.Codex.Serde.{Serde}

-- The chain that `?` and `and_then` make.
infixl 5 ◌>>=◌
abbrev pub ◌>>=◌ {ℓ κ} : {A : Type ℓ} {B : Type κ} → Option A → (A → Option B) → Option B
none >>= f = none
some a >>= f = f a

-- `value.get(key).and_then(as_str)`.
unfoldable pub get_str : String → Json → Option String
unfolding get as_str
get_str key value = get key value >>= as_str

-- `value.get(key).and_then(as_array)`.
unfoldable pub get_array : String → Json → Option (List Json)
unfolding get as_array
get_array key value = get key value >>= as_array

-- `value.pointer("/outer/inner")`: neither key is a number, so that only objects are entered.
unfoldable pub pointer : String → String → Json → Option Json
unfolding get
pointer outer inner value = get outer value >>= get inner

abbrev pub is_object : Json → Bool
is_object (object m) = true
is_object _ = false

-- `json!({ key: value })`.
abbrev pub singleton : String → Json → Json
singleton key value = object (field key value end)

-- `value.get("item")`, or the item of its `response`.
unfoldable pub item_of : Json → Option Json
unfolding get
item_of value = or_else (get "item" value) (get "response" value >>= get "item")

module _ (S : Serde) where
  unfoldable pub normalize_json_value_object_string : Json → String → String
  normalize_json_value_object_string value fallback_field =
      unwrap_or (S.print (if is_object value then value else singleton fallback_field value)) "{}"

  -- What follows the parse of the trimmed text.
  abbrev pub normalize_parsed : String → String → Option Json → String
  normalize_parsed raw fallback_field (some value) =
      normalize_json_value_object_string value fallback_field
  normalize_parsed raw fallback_field none =
      unwrap_or (S.print (singleton fallback_field (string raw))) "{}"

  unfoldable pub normalize_json_object_string : String → String → String
  unfolding normalize_json_value_object_string
  normalize_json_object_string raw fallback_field =
      if is_empty (trim raw) then "{}" else normalize_parsed raw fallback_field (S.parse (trim raw))

  unfoldable pub parse_function_call : Json → Option CodexToolCall
  unfolding get_str normalize_json_object_string
  parse_function_call item = do
    call_id ← get_str "call_id" item
    name ← get_str "name" item
    some (record {
      call_id = call_id;
      name = name;
      arguments =
          normalize_json_object_string (unwrap_or (get_str "arguments" item) "") "arguments";
      kind = function;
    })

  unfoldable pub parse_custom_tool_call : Json → Option CodexToolCall
  unfolding get_str
  parse_custom_tool_call item = do
    call_id ← get_str "call_id" item
    name ← get_str "name" item
    some (record {
      call_id = call_id;
      name = name;
      arguments =
          unwrap_or (S.print (singleton "input" (string (unwrap_or (get_str "input" item) ""))))
            "{}";
      kind = custom;
    })

  unfoldable pub parse_tool_search_call : Json → Option CodexToolCall
  unfolding get_str normalize_json_value_object_string
  parse_tool_search_call item = do
    call_id ← get_str "call_id" item
    some (record {
      call_id = call_id;
      name = "tool_search";
      arguments =
          normalize_json_value_object_string (unwrap_or (get "arguments" item) (object end))
            "arguments";
      kind = tool_search;
    })

  abbrev pub with_status : Option String → Fields → Fields
  with_status none args = args
  with_status (some status) args = insert_field "status" (string status) args

  abbrev pub with_action : Option Json → Fields → Fields
  with_action none args = args
  with_action (some action) args = insert_field "action" action args

  unfoldable pub parse_local_shell_call : Json → Option CodexToolCall
  unfolding get_str
  parse_local_shell_call item = do
    call_id ← get_str "call_id" item
    some (record {
      call_id = call_id;
      name = "local_shell";
      arguments =
          unwrap_or
            (S.print
              (object (with_action (get "action" item) (with_status (get_str "status" item) end))))
            "{}";
      kind = local_shell;
    })

  unfoldable pub parse_tool_call_item : Json → Option CodexToolCall
  unfolding parse_function_call parse_custom_tool_call parse_tool_search_call parse_local_shell_call
  parse_tool_call_item item = do
    type ← get_str "type" item
    if str_eq type "function_call"
        then parse_function_call item
        else if str_eq type "custom_tool_call"
        then parse_custom_tool_call item
        else if str_eq type "tool_search_call"
        then parse_tool_search_call item
        else if str_eq type "local_shell_call"
        then parse_local_shell_call item
        else none

  unfoldable pub parse_output_item_tool_call : String → String → Option CodexToolCall
  unfolding item_of parse_tool_call_item
  parse_output_item_tool_call event_name data' =
      if str_eq event_name "response.output_item.done"
        || str_eq event_name "response.output_item.added"
      then (do value ← S.parse data'; item ← item_of value; parse_tool_call_item item)
      else none
