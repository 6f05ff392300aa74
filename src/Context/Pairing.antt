-- ===== src/Context/Pairing.antt =====
-- Context management as a whole leaves the outline of the messages, and with it the pairing of tool
-- uses and their results.
use cld_gateway.Base.{
  ℕ, suc, String, ◌≡◌, refl, ap, sym, ◌∙◌, Option, none, some, List, [], ◌∷◌, map, not, ◌||◌,
  if_holds, str_eq,
}
use cld_gateway.Codex.Serde.{Serde}
use cld_gateway.Anthropic.{
  AnthropicContent, AnthropicContentBlock, AnthropicContextEdit, AnthropicContextManagement,
  AnthropicMessage,
}
use cld_gateway.Context.Interactions.{
  Collected, collect_block, collect_blocks, collect_content, collect_messages,
  collect_tool_interactions, nothing_collected,
}
use cld_gateway.Context.Tools.{tool_trigger_is_active}
use cld_gateway.Context.Policy.{
  ContextManagementConfig, ContextManagementHardLimits, EditDecoder, keep_thinking_turns, resolve,
  supports_thinking, supports_tool_uses,
}
use cld_gateway.Context.Apply.{
  Edited, Reported, then_edit, thinking_edit, apply_thinking_edit, apply_tool_edit, tool_policy,
  no_interactions, limit_tool_uses, limit_policy, limit_thinking, limit_result_chars,
  apply_hard_limits, apply_edit, apply_edits, apply,
}
use cld_gateway.Context.Measure.{is_thinking_block_type}
use cld_gateway.Context.Kinds.{collected-IsTyped}
use cld_gateway.Context.Outline.{outline, block_outline, content_outline}
use cld_gateway.Context.Cleared.{Keeps, outline-clear_tool_interactions}
use cld_gateway.Context.Cleared.Texts.{
  outline-clear_thinking_turns, outline-clear_oversized_tool_results,
}

abbrev SameOutline : List AnthropicMessage → Reported → Type 0
SameOutline messages (r, messages') = outline messages' ≡ outline messages

outline-then_edit :
    (edit : List AnthropicMessage → Edited)
    → ((messages : List AnthropicMessage) → Keeps messages (edit messages))
    → (state : Reported) → SameOutline state.1 (then_edit edit state)
outline-then_edit edit keeps (r, messages) = keeps messages

outline-thinking_edit :
    (edit_type : String) (keep : Option ℕ) (messages : List AnthropicMessage)
    → Keeps messages (thinking_edit edit_type keep messages)
outline-thinking_edit edit_type none messages = refl
outline-thinking_edit edit_type (some keep) messages =
    outline-clear_thinking_turns messages edit_type keep

module _ (S : Serde) where
  outline-apply_tool_edit :
      (edit : AnthropicContextEdit) (messages : List AnthropicMessage)
      → Keeps messages (apply_tool_edit S edit messages)
  unfolding apply_tool_edit
  outline-apply_tool_edit edit messages =
      let interactions = collect_tool_interactions messages in
      if_holds (Keeps messages)
        (no_interactions interactions
          || not (tool_trigger_is_active S messages interactions edit.trigger))
        (λ _. refl)
        (λ _.
          outline-clear_tool_interactions S messages interactions (collected-IsTyped messages)
            (tool_policy edit))

  outline-limit_tool_uses :
      (keep : Option ℕ) (messages : List AnthropicMessage)
      → Keeps messages (limit_tool_uses S keep messages)
  outline-limit_tool_uses none messages = refl
  outline-limit_tool_uses (some keep) messages =
      outline-clear_tool_interactions S messages (collect_tool_interactions messages)
        (collected-IsTyped messages) (limit_policy keep)

  outline-limit_result_chars :
      (limit : Option ℕ) (messages : List AnthropicMessage)
      → Keeps messages (limit_result_chars S limit messages)
  outline-limit_result_chars none messages = refl
  outline-limit_result_chars (some limit) messages =
      outline-clear_oversized_tool_results S limit messages

  outline-apply_hard_limits :
      (limits : ContextManagementHardLimits) (state : Reported)
      → SameOutline state.1 (apply_hard_limits S limits state)
  unfolding apply_hard_limits
  outline-apply_hard_limits limits state =
      let state1 = then_edit (limit_tool_uses S limits.max_tool_uses_to_keep) state in
      let state2 = then_edit (limit_thinking limits.max_thinking_turns_to_keep) state1 in
      outline-then_edit (limit_result_chars S limits.max_tool_result_chars)
        (outline-limit_result_chars limits.max_tool_result_chars) state2
      ∙ outline-then_edit (limit_thinking limits.max_thinking_turns_to_keep)
          (outline-thinking_edit "clear_thinking_gateway_hard_limit"
            limits.max_thinking_turns_to_keep)
          state1
      ∙ outline-then_edit (limit_tool_uses S limits.max_tool_uses_to_keep)
          (outline-limit_tool_uses limits.max_tool_uses_to_keep) state

  outline-apply_edit :
      (edit : AnthropicContextEdit) (state : Reported)
      → SameOutline state.1 (apply_edit S edit state)
  outline-apply_edit edit (r, messages) =
      if_holds (SameOutline messages) (supports_thinking edit.edit_type)
        (λ _.
          outline-then_edit (apply_thinking_edit edit)
            (outline-thinking_edit edit.edit_type (keep_thinking_turns edit.keep)) (r, messages))
        (λ _.
          if_holds (SameOutline messages) (supports_tool_uses edit.edit_type)
            (λ _.
              outline-then_edit (apply_tool_edit S edit) (outline-apply_tool_edit edit)
                (r, messages))
            (λ _. refl))

  outline-apply_edits :
      (edits : List AnthropicContextEdit) (state : Reported)
      → SameOutline state.1 (apply_edits S edits state)
  unfolding apply_edits
  outline-apply_edits [] state = refl
  outline-apply_edits (e ∷ es) state =
      outline-apply_edits es (apply_edit S e state) ∙ outline-apply_edit e state

  -- Whatever the configuration and the request's edits: context management changes of the
  -- messages at most the text and the content of tool results, the inputs of tool uses, and the
  -- text and the field `thinking` of thinking blocks. The number and the roles of messages, the
  -- plain texts, everything else in these blocks, and all other blocks stay.
  pub outline-apply :
      (decode_edit : EditDecoder) (config : ContextManagementConfig)
      (request : Option AnthropicContextManagement) (messages : List AnthropicMessage)
      → outline (apply S decode_edit config request messages).1 ≡ outline messages
  unfolding apply
  outline-apply decode_edit config request messages =
      if_holds (SameOutline messages) (not config.enabled) (λ _. refl)
        (λ _.
          outline-apply_hard_limits config.hard_limits _
          ∙ outline-apply_edits (resolve decode_edit config request).edits _)

-- The collection reads nothing but the outline.
abbrev CollectsAs : ℕ × ℕ → Collected → AnthropicContentBlock → AnthropicContentBlock → Type 0
CollectsAs q c x y = collect_block q y c ≡ collect_block q x c

collect-block_outline :
    (q : ℕ × ℕ) (x : AnthropicContentBlock) (c : Collected) → CollectsAs q c x (block_outline x)
unfolding collect_block
collect-block_outline q x c =
    if_holds (CollectsAs q c x) (is_thinking_block_type x.block_type) (λ _. refl)
      (λ _.
        if_holds (CollectsAs q c x) (str_eq x.block_type "tool_result") (λ _. refl)
          (λ _.
            if_holds (CollectsAs q c x) (str_eq x.block_type "tool_use") (λ _. refl) (λ _. refl)))

collect-outline_blocks :
    (m b : ℕ) (bs : List AnthropicContentBlock) (c : Collected)
    → collect_blocks m b (map block_outline bs) c ≡ collect_blocks m b bs c
unfolding collect_blocks
collect-outline_blocks m b [] c = refl
collect-outline_blocks m b (x ∷ xs) c =
    ap (collect_blocks m (suc b) (map block_outline xs)) (collect-block_outline (m, b) x c)
    ∙ collect-outline_blocks m (suc b) xs (collect_block (m, b) x c)

collect-outline_content :
    (m : ℕ) (x : AnthropicContent) (c : Collected)
    → collect_content m (content_outline x) c ≡ collect_content m x c
collect-outline_content m (AnthropicContent.text s) c = refl
collect-outline_content m (AnthropicContent.blocks bs) c = collect-outline_blocks m 0 bs c

collect-outline_messages :
    (m : ℕ) (ms : List AnthropicMessage) (c : Collected)
    → collect_messages m (outline ms) c ≡ collect_messages m ms c
unfolding collect_messages
collect-outline_messages m [] c = refl
collect-outline_messages m (x ∷ xs) c =
    ap (collect_messages (suc m) (outline xs)) (collect-outline_content m x.content c)
    ∙ collect-outline_messages (suc m) xs (collect_content m x.content c)

collect-outline :
    (messages : List AnthropicMessage)
    → collect_tool_interactions (outline messages) ≡ collect_tool_interactions messages
unfolding collect_tool_interactions
collect-outline messages =
    ap (λ c. c.interactions) (collect-outline_messages 0 messages nothing_collected)

-- Whatever the configuration and the request's edits: the tool interactions that are collected
-- from the messages after context management are those that are collected before it, so that
-- every tool use keeps its results.
pub collect-apply :
    (S : Serde) (decode_edit : EditDecoder) (config : ContextManagementConfig)
    (request : Option AnthropicContextManagement) (messages : List AnthropicMessage)
    → collect_tool_interactions (apply S decode_edit config request messages).1
      ≡ collect_tool_interactions messages
collect-apply S decode_edit config request messages =
    sym (collect-outline (apply S decode_edit config request messages).1)
    ∙ ap collect_tool_interactions (outline-apply S decode_edit config request messages)
    ∙ collect-outline messages
