-- ===== src/Context/Report.antt =====
-- What context management reports, in
-- old_rust/crates/gateway-http-anthropic/src/context_management.rs.
use cld_gateway.Base.{
  ℕ, String, Bool, Option, none, some, List, [], ◌∷◌, ◌&&◌, map, ltb, if◌then◌else◌,
}
use cld_gateway.Json.{Json, Fields, string, array, object, from_list, insert_field}
use cld_gateway.Bridge.Event.{fields, json_number}
use cld_gateway.Context.Measure.{estimate_tokens}

-- What an edit did.
pub record AppliedContextEdit : Type 0 where
  pub edit_type : String
  pub cleared_tool_uses : ℕ
  pub cleared_thinking_turns : ℕ
  pub cleared_input_tokens : ℕ
  pub cleared_chars : ℕ

abbrev pub tool_uses : String → ℕ → ℕ → AppliedContextEdit
tool_uses edit_type cleared_tool_uses cleared_chars = record {
  edit_type = edit_type;
  cleared_tool_uses = cleared_tool_uses;
  cleared_thinking_turns = 0;
  cleared_input_tokens = estimate_tokens cleared_chars;
  cleared_chars = cleared_chars;
}

abbrev pub thinking : String → ℕ → ℕ → AppliedContextEdit
thinking edit_type cleared_thinking_turns cleared_chars = record {
  edit_type = edit_type;
  cleared_tool_uses = 0;
  cleared_thinking_turns = cleared_thinking_turns;
  cleared_input_tokens = estimate_tokens cleared_chars;
  cleared_chars = cleared_chars;
}

-- A count is shown if it is not 0.
abbrev pub with_count : String → ℕ → Fields → Fields
with_count key n m = if ltb 0 n then insert_field key (json_number n) m else m

unfoldable pub edit_value : AppliedContextEdit → Json
unfolding insert_field
edit_value e = object (
    with_count "cleared_thinking_turns" e.cleared_thinking_turns (
      with_count "cleared_tool_uses" e.cleared_tool_uses (
        fields (
          ("type", string e.edit_type)
          ∷ ("cleared_input_tokens", json_number e.cleared_input_tokens)
          ∷ ("cleared_chars", json_number e.cleared_chars)
          ∷ []))))

pub record ContextManagementReport : Type 0 where
  pub applied_edits : List AppliedContextEdit
  pub ignored_edit_types : List String

abbrev pub no_report : ContextManagementReport
no_report = record { applied_edits = []; ignored_edit_types = [] }

abbrev pub is_none_applied {ℓ} : {A : Type ℓ} → List A → Bool
is_none_applied [] = Bool.true
is_none_applied (x ∷ xs) = Bool.false

unfoldable pub is_empty : ContextManagementReport → Bool
is_empty r = is_none_applied r.applied_edits && is_none_applied r.ignored_edit_types

abbrev pub edit_values : ContextManagementReport → Json
edit_values r = array (from_list (map edit_value r.applied_edits))

unfoldable pub response_value : ContextManagementReport → Option Json
response_value r =
    if is_none_applied r.applied_edits
    then none
    else some (object (fields (("applied_edits", edit_values r) ∷ [])))

unfoldable pub metadata_value : ContextManagementReport → Option Json
unfolding is_empty
metadata_value r =
    if is_empty r
    then none
    else some (
        object (
          fields (
            ("applied_edits", edit_values r)
            ∷ ("ignored_edit_types", array (from_list (map string r.ignored_edit_types)))
            ∷ [])))
