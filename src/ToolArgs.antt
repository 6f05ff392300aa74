-- ===== src/ToolArgs.antt =====
-- old_rust/crates/gateway-http-anthropic/src/tool_arg_policy.rs: the arguments of a tool call are
-- parsed into an object, and two policies remove fields.
pub mod Policies
mod Tests
use Prim.Native.String.{◌++◌ as append}
use cld_gateway.Base.{
  String, ◌≡◌, refl, Bool, true, false, Option, none, some, List, [], ◌∷◌, ◌++◌, str_eq, ◌||◌, ◌&&◌,
  not, if◌then◌else◌, is_some, is_none,
}
use cld_gateway.Base.Result.{Result, ok, err}
use cld_gateway.Base.Text.{trim, is_empty, lowercase_ends_with}
use cld_gateway.Json.{Json, Fields, end, object, get_field, remove_field, as_str, as_object}
use cld_gateway.Codex.Types.{CodexToolCallKind, function, custom, tool_search, local_shell}
use cld_gateway.Codex.Serde.{Serde}
use cld_gateway.Codex.ToolCalls.{normalize_json_object_string}

pub record PolicyEdit : Type 0 where
  pub field : String
  pub action : String
  pub reason : String

abbrev pub isolation_edit : PolicyEdit
isolation_edit = record {
  field = "isolation";
  action = "remove";
  reason = "gateway should not force worktree isolation for Agent calls";
}

abbrev pub empty_pages_edit : PolicyEdit
empty_pages_edit = record {
  field = "pages";
  action = "remove";
  reason = "empty string is invalid; omit pages unless reading a PDF";
}

abbrev pub pages_edit : PolicyEdit
pages_edit = record {
  field = "pages";
  action = "remove";
  reason = "pages only applies to PDF reads";
}

unfoldable pub agent_policy : String → Fields → List PolicyEdit × Fields
agent_policy tool_name args =
    if not (str_eq tool_name "Agent") || is_none (get_field "isolation" args)
    then ([], args)
    else (isolation_edit ∷ [], remove_field "isolation" args)

-- `and_then(Value::as_str)` with a test.
abbrev pub text_satisfies : (String → Bool) → Option Json → Bool
text_satisfies p none = false
text_satisfies p (some v) = elim (as_str v) [ none ↦ false | some s ↦ p s ]

-- `file_path.is_some_and(..)`.
unfoldable pub is_pdf : Fields → Bool
unfolding as_str
is_pdf args = text_satisfies (λ p. lowercase_ends_with p ".pdf") (get_field "file_path" args)

unfoldable pub pages_empty : Fields → Bool
unfolding as_str
pages_empty args = text_satisfies is_empty (get_field "pages" args)

unfoldable pub read_policy : String → Fields → List PolicyEdit × Fields
read_policy tool_name args =
    if not (str_eq tool_name "Read")
    then ([], args)
    else if is_none (get_field "pages" args)
    then ([], args)
    else if pages_empty args
    then (empty_pages_edit ∷ [], remove_field "pages" args)
    else if not (is_pdf args)
    then (pages_edit ∷ [], remove_field "pages" args)
    else ([], args)

unfoldable pub apply_policies : String → Fields → List PolicyEdit × Fields
unfolding agent_policy read_policy
apply_policies tool_name args =
    let (agent_edits, args1) = agent_policy tool_name args in
    let (read_edits, args2) = read_policy tool_name args1 in (agent_edits ++ read_edits, args2)

abbrev pub not_an_object : String
not_an_object = "tool_use.input must be a JSON object"

module _ (S : Serde) where
  abbrev pub not_json : String → String
  not_json text = append "tool_use.input is not valid JSON: " (S.parse_error text)

  -- The parsed value, which has to be an object.
  abbrev pub object_or_error : String → Option Json → Result String Fields
  object_or_error text none = err (not_json text)
  object_or_error text (some value) = elim (as_object value) [
    | none ↦ err not_an_object
    | some m ↦ ok m
  ]

  -- `validate_tool_args_json_object` makes the same parse and test first, with the same errors.
  unfoldable pub parse_tool_args_object : String → Result String Fields
  unfolding as_object
  parse_tool_args_object buf =
      if is_empty (trim buf) then ok end else object_or_error (trim buf) (S.parse (trim buf))

  -- What a custom call's text that is no object becomes.
  abbrev pub wrapped : String → Result String Fields → Result String Fields
  wrapped trimmed (ok m) = ok m
  wrapped trimmed (err e) = parse_tool_args_object (normalize_json_object_string S trimmed "input")

  unfoldable pub parse_tool_args_object_for_kind : CodexToolCallKind → String → Result String Fields
  parse_tool_args_object_for_kind custom buf =
      if is_empty (trim buf) then ok end else wrapped (trim buf) (parse_tool_args_object (trim buf))
  parse_tool_args_object_for_kind function buf = parse_tool_args_object buf
  parse_tool_args_object_for_kind tool_search buf = parse_tool_args_object buf
  parse_tool_args_object_for_kind local_shell buf = parse_tool_args_object buf

  abbrev pub sanitized : String → Result String Fields → Result String (Fields × List PolicyEdit)
  sanitized tool_name (err e) = err e
  sanitized tool_name (ok args) =
      let (edits, kept) = apply_policies tool_name args in ok (kept, edits)

  unfoldable pub sanitized_tool_args_for_kind :
      String → CodexToolCallKind → String → Result String (Fields × List PolicyEdit)
  sanitized_tool_args_for_kind tool_name kind buf =
      sanitized tool_name (parse_tool_args_object_for_kind kind buf)
