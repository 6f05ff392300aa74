-- ===== src/Context/Tests.antt =====
-- The theorems on context management at a conversation with two tool uses.
use cld_gateway.Base.{
  ◌+◌, ◌≤◌, ◌<◌, String, ◌≡◌, ◌≢◌, refl, true, none, some, List, [], ◌∷◌, All, inl, inr, length,
  get_elem?, arith,
}
use cld_gateway.Base.Dict
use cld_gateway.Base.Text.{codes}
use cld_gateway.Codex.Completed.{contains}
use cld_gateway.Json.{string, end}
use cld_gateway.Codex.Serde.{Serde}
use cld_gateway.Anthropic.{AnthropicContent, AnthropicContentBlock, AnthropicMessage}
use cld_gateway.Context.Interactions.{
  ToolInteraction, collect_tool_interactions, collect_messages, collect_blocks, collect_block,
}
use cld_gateway.Context.Measure.{block, update_at, tool_result_chars, chars_count}
use cld_gateway.Context.Report.{AppliedContextEdit}
use cld_gateway.Context.Tools.{
  candidates, eligible_from, take, clear_tool_interactions, clear_candidates,
  clear_tool_interaction, clear_results,
}
use cld_gateway.Context.Thinking.{clear_oversized_tool_results}
use cld_gateway.Context.Policy.{ContextManagementConfig, EditDecoder, follow_request}
use cld_gateway.Context.Apply.{apply, limit_policy}
use cld_gateway.Context.Outline.{outline}
use cld_gateway.Context.Pairing.{outline-apply, collect-apply}
use cld_gateway.Context.Bounds.{cleared_tool_uses_bound}
use cld_gateway.Context.Positions.{Has, positions}
use cld_gateway.Context.Owners.{kept_interaction_same}
use cld_gateway.Context.Limits.{LimitedContent, oversized-Limited}

-- Every value is printed with ten characters.
abbrev a_serde : Serde
a_serde = record {
  parse = λ t. none;
  parse_error = λ t. "refused";
  print = λ j. some "0123456789";
  decode_completed = λ j. none;
}

abbrev no_edits : EditDecoder
no_edits value = none

abbrev an_empty_block : AnthropicContentBlock
an_empty_block = record {
  block_type = "text";
  text = none;
  id = none;
  name = none;
  input = none;
  tool_use_id = none;
  content = none;
  is_error = none;
  source = none;
  extra = end;
}

abbrev tool_use : String → AnthropicContentBlock
tool_use id = record an_empty_block {
  block_type = "tool_use";
  id = some id;
  name = some "Read";
  input = some (string "a file");
}

abbrev tool_result : String → AnthropicContentBlock
tool_result id = record an_empty_block {
  block_type = "tool_result";
  tool_use_id = some id;
  content = some (string "the contents");
}

abbrev of_blocks : String → List AnthropicContentBlock → AnthropicMessage
of_blocks role bs = record { role = role; content = AnthropicContent.blocks bs }

abbrev two_uses : List AnthropicMessage
two_uses =
    of_blocks "assistant" (tool_use "a" ∷ [])
    ∷ of_blocks "user" (tool_result "a" ∷ [])
    ∷ of_blocks "assistant" (tool_use "b" ∷ [])
    ∷ of_blocks "user" (tool_result "b" ∷ [])
    ∷ []

-- One tool use is kept, and results have at most five characters.
abbrev a_config : ContextManagementConfig
a_config = record {
  enabled = true;
  mode = follow_request;
  default_edits = [];
  override_edits = none;
  hard_limits = record {
    max_tool_result_chars = some 5;
    max_tool_uses_to_keep = some 1;
    max_thinking_turns_to_keep = none;
  };
}

abbrev one_cleared : AppliedContextEdit
one_cleared = record {
  edit_type = (limit_policy 1).edit_type;
  cleared_tool_uses = 1;
  cleared_thinking_turns = 0;
  cleared_input_tokens = 3;
  cleared_chars = 10;
}

second : ToolInteraction
second = record { name = some "Read"; tool_use = (2, 0); tool_results = (3, 0) ∷ [] }

one_cleared_found :
    (clear_tool_interactions a_serde two_uses
      (collect_tool_interactions two_uses)
      (limit_policy 1)).0
    ≡ some one_cleared
unfolding clear_tool_interactions collect_tool_interactions collect_messages collect_blocks
    collect_block Dict.get Dict.insert update_at eligible_from contains clear_candidates candidates
    take clear_tool_interaction clear_results tool_result_chars chars_count codes
one_cleared_found = refl

second_found : get_elem? (collect_tool_interactions two_uses) 1 ≡ some second
unfolding second collect_tool_interactions collect_messages collect_blocks collect_block Dict.get
    Dict.insert update_at
second_found = refl

first_chosen : All (λ i. i ≢ 1) (candidates (limit_policy 1) (collect_tool_interactions two_uses))
unfolding collect_tool_interactions candidates take eligible_from collect_messages collect_blocks
    collect_block Dict.get Dict.insert update_at contains
first_chosen = (omega arith, tt)

result_of_second : Has (3, 0) (positions second)
unfolding second
result_of_second = inr (inl refl)

outline-apply_example : outline (apply a_serde no_edits a_config none two_uses).1 ≡ outline two_uses
outline-apply_example = outline-apply a_serde no_edits a_config none two_uses

collect-apply_example :
    collect_tool_interactions (apply a_serde no_edits a_config none two_uses).1
    ≡ collect_tool_interactions two_uses
collect-apply_example = collect-apply a_serde no_edits a_config none two_uses

cleared_tool_uses_bound_example :
    (0 < one_cleared.cleared_tool_uses)
    × (one_cleared.cleared_tool_uses + (limit_policy 1).keep
        ≤ length (eligible_from (limit_policy 1) 0 (collect_tool_interactions two_uses)))
cleared_tool_uses_bound_example =
    cleared_tool_uses_bound a_serde two_uses (collect_tool_interactions two_uses) (limit_policy 1)
      one_cleared_found

kept_interaction_same_example :
    block
      (clear_tool_interactions a_serde two_uses
        (collect_tool_interactions two_uses)
        (limit_policy 1)).1
      3
      0
    ≡ block two_uses 3 0
kept_interaction_same_example =
    kept_interaction_same a_serde two_uses (limit_policy 1) 1 second 3 0 second_found first_chosen
      result_of_second

oversized-Limited_example :
    All
      (λ m. LimitedContent a_serde 5 m.content)
      (clear_oversized_tool_results a_serde two_uses 5).1
oversized-Limited_example = oversized-Limited a_serde 5 two_uses
