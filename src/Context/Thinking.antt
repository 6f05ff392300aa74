-- ===== src/Context/Thinking.antt =====
-- The clearing of thinking, and of tool results that are too long, in
-- old_rust/crates/gateway-http-anthropic/src/context_management.rs.
use cld_gateway.Base.{
  ℕ, suc, ◌-◌, String, Bool, true, false, Option, none, some, List, [], ◌∷◌, ◌&&◌, not, str_eq,
  length, get_elem?, leb, ltb, if◌then◌else◌,
}
use cld_gateway.Base.Usize.{saturating_add}
use cld_gateway.Json.{string, insert_field}
use cld_gateway.Codex.Serde.{Serde}
use cld_gateway.Anthropic.{AnthropicContent, AnthropicContentBlock, AnthropicMessage}
use cld_gateway.Context.Measure.{
  is_thinking_block_type, message_has_thinking, thinking_chars, tool_result_chars, update_at,
}
use cld_gateway.Context.Report.{AppliedContextEdit, thinking}
use cld_gateway.Context.Tools.{applied_if_any, clear_result, take}

abbrev pub thinking_placeholder : String
thinking_placeholder = "Thinking content cleared by gateway context management."

abbrev pub is_thinking_turn : AnthropicMessage → Bool
is_thinking_turn message = str_eq message.role "assistant" && message_has_thinking message

-- The indices, from an index on, of the assistant's messages with thinking.
unfoldable pub thinking_turns_from : ℕ → List AnthropicMessage → List ℕ
thinking_turns_from index [] = []
thinking_turns_from index (m ∷ ms) =
    let rest = thinking_turns_from (suc index) ms in
    if is_thinking_turn m then index ∷ rest else rest

unfoldable pub clear_thinking : AnthropicContentBlock → AnthropicContentBlock
unfolding insert_field
clear_thinking b = record b {
  extra = insert_field "thinking" (string thinking_placeholder) b.extra;
  text = none;
}

-- The blocks of one message, with the characters cleared so far and whether a block changed.
pub record ThinkingBlocks : Type 0 where
  pub blocks : List AnthropicContentBlock
  pub cleared_chars : ℕ
  pub changed : Bool

abbrev pub with_cleared : AnthropicContentBlock → ThinkingBlocks → ThinkingBlocks
with_cleared b r = record r { blocks = clear_thinking b ∷ r.blocks; changed = true }

abbrev pub with_kept : AnthropicContentBlock → ThinkingBlocks → ThinkingBlocks
with_kept b r = record r { blocks = b ∷ r.blocks }

unfoldable pub clear_thinking_blocks : List AnthropicContentBlock → ℕ → ThinkingBlocks
clear_thinking_blocks [] chars = record { blocks = []; cleared_chars = chars; changed = false }
clear_thinking_blocks (b ∷ bs) chars =
    let cleared =
      with_cleared b (clear_thinking_blocks bs (saturating_add chars (thinking_chars b))) in
    let kept = with_kept b (clear_thinking_blocks bs chars) in
    if is_thinking_block_type b.block_type then cleared else kept

-- The variables of the loop over turns.
pub record ClearingTurns : Type 0 where
  pub messages : List AnthropicMessage
  pub cleared_turns : ℕ
  pub cleared_chars : ℕ

abbrev pub count_turn : ℕ → ThinkingBlocks → ClearingTurns → ClearingTurns
count_turn message_index r s = record {
  messages =
      update_at (λ message. record message { content = AnthropicContent.blocks r.blocks })
        message_index s.messages;
  cleared_turns = if r.changed then saturating_add s.cleared_turns 1 else s.cleared_turns;
  cleared_chars = r.cleared_chars;
}

abbrev pub clear_content : ℕ → AnthropicContent → ClearingTurns → ClearingTurns
clear_content message_index (AnthropicContent.text t) s = s
clear_content message_index (AnthropicContent.blocks bs) s =
    count_turn message_index (clear_thinking_blocks bs s.cleared_chars) s

abbrev pub clear_turn : ℕ → Option AnthropicMessage → ClearingTurns → ClearingTurns
clear_turn message_index none s = s
clear_turn message_index (some message) s = clear_content message_index message.content s

unfoldable pub clear_turns : List ℕ → ClearingTurns → ClearingTurns
clear_turns [] s = s
clear_turns (message_index ∷ rest) s =
    clear_turns rest (clear_turn message_index (get_elem? s.messages message_index) s)

abbrev pub report_turns : String → ClearingTurns → Option AppliedContextEdit × List AnthropicMessage
report_turns edit_type s = (
  if ltb 0 s.cleared_turns then some (thinking edit_type s.cleared_turns s.cleared_chars) else none,
  s.messages,
)

-- All but the last `keep_turns`.
unfoldable pub turns_to_clear : List AnthropicMessage → ℕ → List ℕ
turns_to_clear messages keep_turns =
    let turns = thinking_turns_from 0 messages in take (length turns - keep_turns) turns

unfoldable pub clear_thinking_turns :
    List AnthropicMessage → String → ℕ → Option AppliedContextEdit × List AnthropicMessage
clear_thinking_turns messages edit_type keep_turns =
    if leb (length (thinking_turns_from 0 messages)) keep_turns
    then (none, messages)
    else report_turns edit_type (
        clear_turns (turns_to_clear messages keep_turns)
          (record { messages = messages; cleared_turns = 0; cleared_chars = 0 }))

module _ (S : Serde) where
  -- The number of results cleared, and of their characters.
  abbrev pub count_result : ℕ → ℕ × ℕ → ℕ × ℕ
  count_result chars (uses, total) = (saturating_add uses 1, saturating_add total chars)

  -- The block is a tool result longer than the limit.
  abbrev pub is_oversized : ℕ → AnthropicContentBlock → Bool
  is_oversized limit b =
      str_eq b.block_type "tool_result" && not (leb (tool_result_chars S b) limit)

  unfoldable pub clear_oversized_blocks :
      ℕ → List AnthropicContentBlock → ℕ × ℕ → List AnthropicContentBlock × (ℕ × ℕ)
  clear_oversized_blocks limit [] counts = ([], counts)
  clear_oversized_blocks limit (b ∷ bs) counts =
      let (cleared, counts1) =
        clear_oversized_blocks limit bs (count_result (tool_result_chars S b) counts) in
      let (kept, counts2) = clear_oversized_blocks limit bs counts in
      if is_oversized limit b then (clear_result b ∷ cleared, counts1) else (b ∷ kept, counts2)

  abbrev pub clear_oversized_content : ℕ → AnthropicContent → ℕ × ℕ → AnthropicContent × (ℕ × ℕ)
  clear_oversized_content limit (AnthropicContent.text t) counts = (AnthropicContent.text t, counts)
  clear_oversized_content limit (AnthropicContent.blocks bs) counts =
      let (bs', counts') = clear_oversized_blocks limit bs counts in
      (AnthropicContent.blocks bs', counts')

  unfoldable pub clear_oversized_messages :
      ℕ → List AnthropicMessage → ℕ × ℕ → List AnthropicMessage × (ℕ × ℕ)
  clear_oversized_messages limit [] counts = ([], counts)
  clear_oversized_messages limit (m ∷ ms) counts =
      let (content, counts1) = clear_oversized_content limit m.content counts in
      let (rest, counts2) = clear_oversized_messages limit ms counts1 in
      (record m { content = content } ∷ rest, counts2)

  unfoldable pub clear_oversized_tool_results :
      List AnthropicMessage → ℕ → Option AppliedContextEdit × List AnthropicMessage
  clear_oversized_tool_results messages limit =
      let (messages', (uses, chars)) = clear_oversized_messages limit messages (0, 0) in
      (applied_if_any "clear_tool_uses_gateway_hard_limit_chars" uses chars, messages')
