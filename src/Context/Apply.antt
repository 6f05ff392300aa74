-- ===== src/Context/Apply.antt =====
-- The editors and `ContextManager::apply`, in
-- old_rust/crates/gateway-http-anthropic/src/context_management.rs.
use cld_gateway.Base.{
  ℕ, String, Bool, true, false, Option, none, some, List, [], ◌∷◌, ◌++◌, ◌||◌, not, unwrap_or,
  if◌then◌else◌,
}
use cld_gateway.Codex.Serde.{Serde}
use cld_gateway.Anthropic.{AnthropicContextEdit, AnthropicContextManagement, AnthropicMessage}
use cld_gateway.Context.Interactions.{ToolInteraction, collect_tool_interactions}
use cld_gateway.Context.Report.{AppliedContextEdit, ContextManagementReport, no_report}
use cld_gateway.Context.Tools.{ToolClearPolicy, tool_trigger_is_active, clear_tool_interactions}
use cld_gateway.Context.Thinking.{clear_thinking_turns, clear_oversized_tool_results}
use cld_gateway.Context.Policy.{
  ContextManagementConfig, ContextManagementHardLimits, EditDecoder, keep_tool_uses,
  keep_thinking_turns, supports_tool_uses, supports_thinking, resolve,
}

abbrev pub default_tool_keep_uses : ℕ
default_tool_keep_uses = 3

-- What an editor returns and the messages that it leaves.
abbrev pub Edited : Type 0
Edited = Option AppliedContextEdit × List AnthropicMessage

abbrev pub no_interactions : List ToolInteraction → Bool
no_interactions [] = true
no_interactions (i ∷ is) = false

abbrev pub tool_policy : AnthropicContextEdit → ToolClearPolicy
tool_policy edit = record {
  edit_type = edit.edit_type;
  keep = unwrap_or (keep_tool_uses edit.keep) default_tool_keep_uses;
  exclude_tools = edit.exclude_tools;
  clear_tool_inputs = edit.clear_tool_inputs;
  clear_at_least = edit.clear_at_least;
}

abbrev pub limit_policy : ℕ → ToolClearPolicy
limit_policy keep = record {
  edit_type = "clear_tool_uses_gateway_hard_limit";
  keep = keep;
  exclude_tools = [];
  clear_tool_inputs = false;
  clear_at_least = none;
}

abbrev pub thinking_edit : String → Option ℕ → List AnthropicMessage → Edited
thinking_edit edit_type none messages = (none, messages)
thinking_edit edit_type (some keep) messages = clear_thinking_turns messages edit_type keep

-- `ThinkingContextEditor::apply`.
abbrev pub apply_thinking_edit : AnthropicContextEdit → List AnthropicMessage → Edited
apply_thinking_edit edit messages =
    thinking_edit edit.edit_type (keep_thinking_turns edit.keep) messages

abbrev pub limit_thinking : Option ℕ → List AnthropicMessage → Edited
limit_thinking keep messages = thinking_edit "clear_thinking_gateway_hard_limit" keep messages

-- A further edit behind the report so far.
abbrev pub report_edit :
    Option AppliedContextEdit → ContextManagementReport → ContextManagementReport
report_edit none r = r
report_edit (some edit) r = record r { applied_edits = r.applied_edits ++ edit ∷ [] }

abbrev pub Reported : Type 0
Reported = ContextManagementReport × List AnthropicMessage

abbrev pub then_edit : (List AnthropicMessage → Edited) → Reported → Reported
then_edit edit (r, messages) = let (e, messages') = edit messages in (report_edit e r, messages')

module _ (S : Serde) where
  -- `ToolUseContextEditor::apply`.
  unfoldable pub apply_tool_edit : AnthropicContextEdit → List AnthropicMessage → Edited
  apply_tool_edit edit messages =
      let interactions = collect_tool_interactions messages in
      if no_interactions interactions
        || not (tool_trigger_is_active S messages interactions edit.trigger)
      then (none, messages)
      else clear_tool_interactions S messages interactions (tool_policy edit)

  abbrev pub limit_tool_uses : Option ℕ → List AnthropicMessage → Edited
  limit_tool_uses none messages = (none, messages)
  limit_tool_uses (some keep) messages =
      clear_tool_interactions S messages (collect_tool_interactions messages) (limit_policy keep)

  abbrev pub limit_result_chars : Option ℕ → List AnthropicMessage → Edited
  limit_result_chars none messages = (none, messages)
  limit_result_chars (some limit) messages = clear_oversized_tool_results S messages limit

  -- `HardLimitContextEditor::apply`.
  unfoldable pub apply_hard_limits : ContextManagementHardLimits → Reported → Reported
  apply_hard_limits limits state = then_edit (limit_result_chars limits.max_tool_result_chars) (
      then_edit (limit_thinking limits.max_thinking_turns_to_keep)
        (then_edit (limit_tool_uses limits.max_tool_uses_to_keep) state))

  -- The first editor that supports the edit; without one, the edit's type is reported as ignored.
  abbrev pub apply_edit : AnthropicContextEdit → Reported → Reported
  apply_edit edit (r, messages) =
      if supports_thinking edit.edit_type
      then then_edit (apply_thinking_edit edit) (r, messages)
      else if supports_tool_uses edit.edit_type
      then then_edit (apply_tool_edit edit) (r, messages)
      else (record r { ignored_edit_types = r.ignored_edit_types ++ edit.edit_type ∷ [] }, messages)

  unfoldable pub apply_edits : List AnthropicContextEdit → Reported → Reported
  apply_edits [] state = state
  apply_edits (edit ∷ edits) state = apply_edits edits (apply_edit edit state)

  -- `ContextManager::apply`.
  unfoldable pub apply :
      EditDecoder
      → ContextManagementConfig
      → Option AnthropicContextManagement
      → List AnthropicMessage
      → Reported
  apply decode_edit config request messages =
      let policy = resolve decode_edit config request in
      if not config.enabled
      then (no_report, messages)
      else apply_hard_limits config.hard_limits (
          apply_edits policy.edits
            (record no_report { ignored_edit_types = policy.ignored_edit_types }, messages))
