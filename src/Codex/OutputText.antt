-- ===== src/Codex/OutputText.antt =====
-- old_rust/crates/gateway-backend-codex/src/output_text.rs.
use cld_gateway.Base.{
  String, Bool, Option, none, some, List, [], ◌∷◌, str_eq, ◌||◌, if◌then◌else◌, or_else, filter_map,
  opt_eq,
}
use cld_gateway.Base.Text.{is_empty}
use cld_gateway.Json.{
  Json, Items, Fields, null, bool, number, string, array, object, nil, cons, end, field, get_field,
}
use cld_gateway.Codex.Serde.{Serde}
use cld_gateway.Codex.ToolCalls.{get_str, get_array, item_of}

abbrev pub as_string : Option Json → Option String
as_string (some (string s)) = some s
as_string _ = none

abbrev pub is_text_key : String → Bool
is_text_key key = str_eq key "text" || (str_eq key "delta" || str_eq key "content")

-- The text that a list of fields holds directly, `delta` after `text`.
abbrev pub direct_text : Fields → Option String → Option String
direct_text m last =
    or_else (as_string (get_field "delta" m)) (or_else (as_string (get_field "text" m)) last)

-- `last` is the text found so far. An object's own texts come first, then its `content`, then the
-- other fields; what comes later replaces what came before.
unfoldable mutual
  pub extract_last_text_from_value : Json → Option String → Option String
  extract_last_text_from_value (object m) last =
      last_text_of_others m (last_text_of_content m (direct_text m last))
  extract_last_text_from_value (array xs) last = last_text_of_items xs last
  extract_last_text_from_value null last = last
  extract_last_text_from_value (bool b) last = last
  extract_last_text_from_value (number n) last = last
  extract_last_text_from_value (string s) last = last

  pub last_text_of_items : Items → Option String → Option String
  last_text_of_items nil last = last
  last_text_of_items (cons x xs) last = last_text_of_items xs (extract_last_text_from_value x last)

  -- The first field with the key `content`, as `map.get` finds it.
  pub last_text_of_content : Fields → Option String → Option String
  last_text_of_content end last = last
  last_text_of_content (field key child m) last =
      let found = extract_last_text_from_value child last in
      let rest = last_text_of_content m last in if str_eq key "content" then found else rest

  pub last_text_of_others : Fields → Option String → Option String
  last_text_of_others end last = last
  last_text_of_others (field key child m) last =
      let found = last_text_of_others m (extract_last_text_from_value child last) in
      let rest = last_text_of_others m last in if is_text_key key then rest else found

-- A text that is no JSON is taken as it is.
abbrev pub extract_parsed : String → Option Json → Option String
extract_parsed data' none = some data'
extract_parsed data' (some value) = extract_last_text_from_value value none

unfoldable pub extract_text_from_data : Serde → String → Option String
extract_text_from_data S data' = extract_parsed data' (S.parse data')

-- The text of an `output_text` part, if there is any.
abbrev pub content_text : Json → Option String
content_text item =
    if opt_eq (get_str "type" item) (some "output_text") then get_str "text" item else none

abbrev pub non_empty_text : Json → Option String
non_empty_text item = elim (content_text item) [
  | none ↦ none
  | some t ↦ if is_empty t then none else some t
]

unfoldable pub output_texts_from_content_array : Json → List String
output_texts_from_content_array item = elim (get_array "content" item) [
  | none ↦ []
  | some content ↦ filter_map non_empty_text content
]

abbrev pub own_text : Option String → List String
own_text none = []
own_text (some t) = if is_empty t then [] else t ∷ []

unfoldable pub message_item_output_texts : Json → List String
unfolding output_texts_from_content_array
message_item_output_texts item =
    if opt_eq (get_str "type" item) (some "message")
    then output_texts_from_content_array item
    else if opt_eq (get_str "type" item) (some "output_text")
    then own_text (get_str "text" item)
    else []

abbrev pub texts_of_item : Option Json → List String
texts_of_item none = []
texts_of_item (some item) = message_item_output_texts item

abbrev pub item_of_parsed : Option Json → Option Json
item_of_parsed none = none
item_of_parsed (some value) = item_of value

unfoldable pub parse_output_item_message_texts : Serde → String → String → List String
unfolding message_item_output_texts
parse_output_item_message_texts S event_name data' =
    if str_eq event_name "response.output_item.done"
      || str_eq event_name "response.output_item.added"
    then texts_of_item (item_of_parsed (S.parse data'))
    else []
