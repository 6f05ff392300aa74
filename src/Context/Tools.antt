-- ===== src/Context/Tools.antt =====
-- The clearing of tool interactions in
-- old_rust/crates/gateway-http-anthropic/src/context_management.rs: all but the last ones are cleared.
use cld_gateway.Base.{
  ℕ, zero, suc, ◌-◌, String, Bool, true, false, Option, none, some, List, [], ◌∷◌, ◌++◌, ◌&&◌, not,
  str_eq, length, get_elem?, leb, ltb, if◌then◌else◌,
}
use cld_gateway.Base.Usize.{saturating_add, wrapping_sum}
use cld_gateway.Json.{string, object, end}
use cld_gateway.Codex.Serde.{Serde}
use cld_gateway.Codex.Completed.{contains}
use cld_gateway.Anthropic.{AnthropicContentBlock, AnthropicContextThreshold, AnthropicMessage}
use cld_gateway.Context.Measure.{
  estimate_tokens, threshold_to_usize, block, update_block, json_chars, tool_result_chars,
  estimated_message_tokens,
}
use cld_gateway.Context.Interactions.{ToolInteraction}
use cld_gateway.Context.Report.{AppliedContextEdit, tool_uses}

abbrev pub tool_result_placeholder : String
tool_result_placeholder = "Tool result content cleared by gateway context management."

pub record ToolClearPolicy : Type 0 where
  pub edit_type : String
  pub keep : ℕ
  pub exclude_tools : List String
  pub clear_tool_inputs : Bool
  pub clear_at_least : Option AnthropicContextThreshold

-- The filter by name.
abbrev pub is_eligible : ToolClearPolicy → Option String → Bool
is_eligible policy none = true
is_eligible policy (some name) = not (contains policy.exclude_tools name)

-- The indices, from an index on, of the interactions that are not excluded.
unfoldable pub eligible_from : ToolClearPolicy → ℕ → List ToolInteraction → List ℕ
eligible_from policy index [] = []
eligible_from policy index (i ∷ is) =
    let rest = eligible_from policy (suc index) is in
    if is_eligible policy i.name then index ∷ rest else rest

unfoldable pub take {ℓ} : {A : Type ℓ} → ℕ → List A → List A
take zero xs = []
take (suc n) [] = []
take (suc n) (x ∷ xs) = x ∷ take n xs

-- A cleared tool result.
abbrev pub clear_result : AnthropicContentBlock → AnthropicContentBlock
clear_result b = record b { content = some (string tool_result_placeholder); text = none }

abbrev pub clear_input : AnthropicContentBlock → AnthropicContentBlock
clear_input b = record b { input = some (object end) }

-- `cleared_tool_uses > 0` then the edit.
abbrev pub applied_if_any : String → ℕ → ℕ → Option AppliedContextEdit
applied_if_any edit_type uses chars =
    if ltb 0 uses then some (tool_uses edit_type uses chars) else none

-- The variables of the loop that clears.
pub record Clearing : Type 0 where
  pub messages : List AnthropicMessage
  pub cleared_tool_uses : ℕ
  pub cleared_chars : ℕ

abbrev pub count_changed : List AnthropicMessage × ℕ → Clearing → Clearing
count_changed (messages, changed) s =
    if ltb 0 changed
    then record {
      messages = messages;
      cleared_tool_uses = saturating_add s.cleared_tool_uses 1;
      cleared_chars = saturating_add s.cleared_chars changed;
    }
    else record s { messages = messages }

-- The threshold `clear_at_least`, if it is one of tokens, is not reached.
abbrev pub too_little : Option AnthropicContextThreshold → ℕ → Bool
too_little none clearable_chars = false
too_little (some threshold) clearable_chars =
    str_eq threshold.threshold_type "input_tokens"
    && ltb (estimate_tokens clearable_chars) (threshold_to_usize threshold)

abbrev pub report_clearing : String → Clearing → Option AppliedContextEdit × List AnthropicMessage
report_clearing edit_type s =
    (applied_if_any edit_type s.cleared_tool_uses s.cleared_chars, s.messages)

unfoldable pub candidates : ToolClearPolicy → List ToolInteraction → List ℕ
candidates policy interactions =
    let eligible = eligible_from policy 0 interactions in
    take (length eligible - policy.keep) eligible

module _ (S : Serde) where
  unfoldable pub tool_trigger_is_active :
      List AnthropicMessage → List ToolInteraction → Option AnthropicContextThreshold → Bool
  tool_trigger_is_active messages interactions none = true
  tool_trigger_is_active messages interactions (some trigger) =
      if str_eq trigger.threshold_type "tool_uses"
      then ltb (threshold_to_usize trigger) (length interactions)
      else if str_eq trigger.threshold_type "input_tokens"
      then ltb (threshold_to_usize trigger) (estimated_message_tokens S messages)
      else false

  -- Where there is no such block, nothing is cleared.
  abbrev pub clear_result_at :
      Option AnthropicContentBlock → ℕ × ℕ → List AnthropicMessage × ℕ → List AnthropicMessage × ℕ
  clear_result_at none (m, b) (messages, chars) = (messages, chars)
  clear_result_at (some old) (m, b) (messages, chars) =
      (update_block clear_result m b messages, saturating_add chars (tool_result_chars S old))

  unfoldable pub clear_results :
      List (ℕ × ℕ) → List AnthropicMessage × ℕ → List AnthropicMessage × ℕ
  clear_results [] state = state
  clear_results ((m, b) ∷ rest) (messages, chars) =
      clear_results rest (clear_result_at (block messages m b) (m, b) (messages, chars))

  abbrev pub clear_input_at :
      Option AnthropicContentBlock → ℕ × ℕ → List AnthropicMessage × ℕ → List AnthropicMessage × ℕ
  clear_input_at none (m, b) (messages, chars) = (messages, chars)
  clear_input_at (some old) (m, b) (messages, chars) =
      (update_block clear_input m b messages, saturating_add chars (json_chars S old.input))

  abbrev pub clear_input_if : Bool → ℕ × ℕ → List AnthropicMessage × ℕ → List AnthropicMessage × ℕ
  clear_input_if false position state = state
  clear_input_if true (m, b) (messages, chars) =
      clear_input_at (block messages m b) (m, b) (messages, chars)

  -- The messages and the number of characters that were cleared.
  unfoldable pub clear_tool_interaction :
      ToolInteraction → Bool → List AnthropicMessage → List AnthropicMessage × ℕ
  clear_tool_interaction interaction clear_tool_inputs messages =
      clear_input_if clear_tool_inputs interaction.tool_use
        (clear_results interaction.tool_results (messages, 0))

  abbrev pub result_chars_at : Option AnthropicContentBlock → List ℕ
  result_chars_at none = []
  result_chars_at (some b) = tool_result_chars S b ∷ []

  abbrev pub result_sizes : List AnthropicMessage → List (ℕ × ℕ) → List ℕ
  result_sizes messages [] = []
  result_sizes messages ((m, b) ∷ rest) =
      result_chars_at (block messages m b) ++ result_sizes messages rest

  abbrev pub input_chars_at : Option AnthropicContentBlock → ℕ
  input_chars_at none = 0
  input_chars_at (some b) = json_chars S b.input

  unfoldable pub tool_interaction_clearable_chars :
      List AnthropicMessage → ToolInteraction → Bool → ℕ
  tool_interaction_clearable_chars messages interaction clear_tool_inputs =
      let result_chars = wrapping_sum (result_sizes messages interaction.tool_results) in
      let (m, b) = interaction.tool_use in
      if clear_tool_inputs
      then saturating_add result_chars (input_chars_at (block messages m b))
      else result_chars

  -- `interactions[index]`; the indices of the candidates are in range.
  abbrev pub clearable_at : List AnthropicMessage → Bool → Option ToolInteraction → List ℕ
  clearable_at messages clear_tool_inputs none = []
  clearable_at messages clear_tool_inputs (some i) =
      tool_interaction_clearable_chars messages i clear_tool_inputs ∷ []

  abbrev pub clearable_sizes : List AnthropicMessage → List ToolInteraction → Bool → List ℕ → List ℕ
  clearable_sizes messages interactions clear_tool_inputs [] = []
  clearable_sizes messages interactions clear_tool_inputs (index ∷ rest) =
      clearable_at messages clear_tool_inputs (get_elem? interactions index)
      ++ clearable_sizes messages interactions clear_tool_inputs rest

  abbrev pub clear_one : Bool → Option ToolInteraction → Clearing → Clearing
  clear_one clear_tool_inputs none s = s
  clear_one clear_tool_inputs (some i) s =
      count_changed (clear_tool_interaction i clear_tool_inputs s.messages) s

  unfoldable pub clear_candidates : List ToolInteraction → Bool → List ℕ → Clearing → Clearing
  clear_candidates interactions clear_tool_inputs [] s = s
  clear_candidates interactions clear_tool_inputs (index ∷ rest) s =
      clear_candidates interactions clear_tool_inputs rest
        (clear_one clear_tool_inputs (get_elem? interactions index) s)

  unfoldable pub clear_tool_interactions :
      List AnthropicMessage
      → List ToolInteraction
      → ToolClearPolicy
      → Option AppliedContextEdit × List AnthropicMessage
  clear_tool_interactions messages interactions policy =
      if leb (length interactions) policy.keep
      then (none, messages)
      else if leb (length (eligible_from policy 0 interactions)) policy.keep
      then (none, messages)
      else if too_little policy.clear_at_least (
          wrapping_sum (
            clearable_sizes messages interactions policy.clear_tool_inputs
              (candidates policy interactions)))
      then (none, messages)
      else report_clearing policy.edit_type (
          clear_candidates interactions policy.clear_tool_inputs (candidates policy interactions)
            (record { messages = messages; cleared_tool_uses = 0; cleared_chars = 0 }))
