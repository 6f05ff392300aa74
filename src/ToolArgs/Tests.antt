-- ===== src/ToolArgs/Tests.antt =====
-- The policies' theorems at concrete calls, with a parser that knows two objects.
use cld_gateway.Base.{◌≡◌, refl, none, some, [], ◌∷◌, ◌⊎◌, true, false, str_eq, if◌then◌else◌}
use cld_gateway.Base.Result.{ok}
use cld_gateway.Base.Text.{trim, lowercase_ends_with}
use cld_gateway.Json.{Fields, string, object, end, field, get_field, remove_field}
use cld_gateway.Codex.Types.{function}
use cld_gateway.Codex.Serde.{Serde}
use cld_gateway.ToolArgs.{
  isolation_edit, pages_edit, agent_policy, read_policy, apply_policies, pages_empty, is_pdf,
  parse_tool_args_object, parse_tool_args_object_for_kind, sanitized_tool_args_for_kind,
}
use cld_gateway.ToolArgs.Policies.{
  agent_without_isolation, read_pages_only_for_pdf, policies_keep_fields,
}

abbrev agent_args : Fields
agent_args = field "isolation" (string "worktree") (field "prompt" (string "go") end)

abbrev read_args : Fields
read_args = field "file_path" (string "a.txt") (field "pages" (string "1-2") end)

abbrev two_objects : Serde
two_objects = record {
  parse = λ t.
      if str_eq t "agent"
      then some (object agent_args)
      else if str_eq t "read"
      then some (object read_args)
      else none;
  parse_error = λ t. "expected value";
  print = λ v. some "{}";
  decode_completed = λ v. none;
}

abbrev prompt_left : Fields
prompt_left = field "prompt" (string "go") end

abbrev path_left : Fields
path_left = field "file_path" (string "a.txt") end

agent_sent :
    sanitized_tool_args_for_kind two_objects "Agent" function "agent"
    ≡ ok (prompt_left, isolation_edit ∷ [])
unfolding sanitized_tool_args_for_kind parse_tool_args_object_for_kind parse_tool_args_object
    apply_policies trim get_field remove_field agent_policy read_policy
agent_sent = refl

read_sent :
    sanitized_tool_args_for_kind two_objects "Read" function "read"
    ≡ ok (path_left, pages_edit ∷ [])
unfolding sanitized_tool_args_for_kind parse_tool_args_object_for_kind parse_tool_args_object
    apply_policies trim get_field remove_field agent_policy read_policy pages_empty is_pdf
    lowercase_ends_with
read_sent = refl

agent_without_isolation_example : get_field "isolation" prompt_left ≡ none
agent_without_isolation_example = agent_without_isolation two_objects function "agent" agent_sent

read_pages_only_for_pdf_example :
    (get_field "pages" path_left ≡ none)
    ⊎ ((pages_empty path_left ≡ false) × (is_pdf path_left ≡ true))
read_pages_only_for_pdf_example = read_pages_only_for_pdf two_objects function "read" read_sent

policies_keep_fields_example :
    (args : Fields) × (parse_tool_args_object_for_kind two_objects function "agent" ≡ ok args)
    × (get_field "prompt" prompt_left ≡ get_field "prompt" args)
policies_keep_fields_example =
    policies_keep_fields two_objects function "agent" "Agent" "prompt" agent_sent refl refl
