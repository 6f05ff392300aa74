-- ===== src/Codex/Failure.antt =====
-- old_rust/crates/gateway-backend-codex/src/backend_error.rs.
use Prim.Native.String.{◌++◌ as append}
use cld_gateway.Base.{String, Option, none, some, str_eq, ◌||◌, if◌then◌else◌, unwrap_or, or_else}
use cld_gateway.Base.Text.{trim, is_empty}
use cld_gateway.Json.{
  Json, Items, Fields, null, bool, number, string, array, object, nil, cons, end, field, get_field,
}
use cld_gateway.Codex.Serde.{Serde}
use cld_gateway.Codex.OutputText.{as_string}

-- The text under a key: of the object itself, else of the first part that has one.
unfoldable mutual
  pub find_string_field : String → Json → Option String
  find_string_field key (object m) = or_else (as_string (get_field key m)) (find_in_fields key m)
  find_string_field key (array xs) = find_in_items key xs
  find_string_field key null = none
  find_string_field key (bool b) = none
  find_string_field key (number n) = none
  find_string_field key (string s) = none

  pub find_in_items : String → Items → Option String
  find_in_items key nil = none
  find_in_items key (cons x xs) = or_else (find_string_field key x) (find_in_items key xs)

  pub find_in_fields : String → Fields → Option String
  find_in_fields key end = none
  find_in_fields key (field k child m) =
      or_else (find_string_field key child) (find_in_fields key m)

unfoldable pub non_empty : String → Option String
non_empty value = if is_empty (trim value) then none else some (trim value)

unfoldable pub compact_json : Serde → Json → String
compact_json S value = unwrap_or (S.print value) "unparseable backend error"

-- `format!("{event_name}: {message}")`.
abbrev pub prefixed : String → String → String
prefixed event_name message = append event_name (append ": " message)

abbrev pub prefixed? : String → Option String → Option String
prefixed? event_name none = none
prefixed? event_name (some message) = some (prefixed event_name message)

unfoldable pub failure_message : Serde → Json → String
failure_message S value =
    unwrap_or
      (or_else (find_string_field "message" value)
        (or_else (find_string_field "error" value) (find_string_field "code" value)))
      (compact_json S value)

abbrev pub failure_of : Serde → String → String → Option Json → Option String
failure_of S event_name data' none = prefixed? event_name (non_empty data')
failure_of S event_name data' (some value) = some (prefixed event_name (failure_message S value))

unfoldable pub parse_backend_failure_event : Serde → String → String → Option String
parse_backend_failure_event S event_name data' =
    if str_eq event_name "error" || str_eq event_name "response.failed"
    then failure_of S event_name data' (S.parse data')
    else none
