-- ===== src/Context/Cleared/Texts.antt =====
-- The clearing of thinking, and of oversized tool results, leaves the outline of the messages.
use cld_gateway.Base.{
  ℕ, String, ◌≡◌, refl, ap, sym, ◌∙◌, true, Option, none, some, List, [], ◌∷◌, map, get_elem?,
  arith, if_holds, length, leb,
}
use cld_gateway.Codex.Serde.{Serde}
use cld_gateway.Anthropic.{AnthropicContent, AnthropicContentBlock, AnthropicMessage}
use cld_gateway.Context.Measure.{thinking_chars, tool_result_chars, is_thinking_block_type}
use cld_gateway.Base.Usize.{saturating_add}
use cld_gateway.Context.Thinking.{
  ThinkingBlocks, clear_thinking_blocks, ClearingTurns, clear_content, clear_turn, clear_turns,
  clear_thinking_turns, thinking_turns_from, turns_to_clear, clear_oversized_blocks,
  clear_oversized_content, clear_oversized_messages, clear_oversized_tool_results, is_oversized,
}
use cld_gateway.Base.{str_eq, eq_iff}
use cld_gateway.Context.Outline.{
  outline, block_outline, content_outline, message_outline, outline-clear_result,
  outline-clear_thinking, map-update_at,
}
use cld_gateway.Context.Cleared.{Keeps}

abbrev KeepsBlocks : List AnthropicContentBlock → List AnthropicContentBlock → Type 0
KeepsBlocks bs bs' = map block_outline bs' ≡ map block_outline bs

abbrev KeepsThinking : List AnthropicContentBlock → ThinkingBlocks → Type 0
KeepsThinking bs r = KeepsBlocks bs r.blocks

-- Thinking: the element at the index is the one whose blocks are cleared.
outline-clear_thinking_blocks :
    (bs : List AnthropicContentBlock) (chars : ℕ)
    → KeepsThinking bs (clear_thinking_blocks bs chars)
unfolding clear_thinking_blocks
outline-clear_thinking_blocks [] chars = refl
outline-clear_thinking_blocks (b ∷ bs) chars =
    if_holds (KeepsThinking (b ∷ bs)) (is_thinking_block_type b.block_type)
      (λ cleared i.
        outline-clear_thinking b cleared i
        ∷ outline-clear_thinking_blocks bs (saturating_add chars (thinking_chars b)) i)
      (λ _ i. block_outline b ∷ outline-clear_thinking_blocks bs chars i)

outline-clear_content :
    (i : ℕ) (m : AnthropicMessage) (c : AnthropicContent) (s : ClearingTurns)
    → get_elem? s.messages i ≡ some m
    → m.content ≡ c
    → outline (clear_content i c s).messages ≡ outline s.messages
outline-clear_content i m (AnthropicContent.text t) s at same = refl
outline-clear_content i m (AnthropicContent.blocks bs) s at same =
    map-update_at message_outline _ i s.messages (λ x e.
      let here : x.content ≡ AnthropicContent.blocks bs = cc in
      ap (λ c. record x { content = c })
        (ap AnthropicContent.blocks (outline-clear_thinking_blocks bs s.cleared_chars)
          ∙ sym (ap content_outline here)))

outline-clear_turn :
    (i : ℕ) (o : Option AnthropicMessage) (s : ClearingTurns)
    → get_elem? s.messages i ≡ o
    → outline (clear_turn i o s).messages ≡ outline s.messages
outline-clear_turn i none s at = refl
outline-clear_turn i (some m) s at = outline-clear_content i m m.content s at refl

outline-clear_turns :
    (indices : List ℕ) (s : ClearingTurns)
    → outline (clear_turns indices s).messages ≡ outline s.messages
unfolding clear_turns
outline-clear_turns [] s = refl
outline-clear_turns (i ∷ is) s =
    outline-clear_turns is _ ∙ outline-clear_turn i (get_elem? s.messages i) s refl

pub outline-clear_thinking_turns :
    (messages : List AnthropicMessage) (edit_type : String) (keep : ℕ)
    → Keeps messages (clear_thinking_turns messages edit_type keep)
unfolding clear_thinking_turns
outline-clear_thinking_turns messages edit_type keep =
    if_holds (Keeps messages) (leb (length (thinking_turns_from 0 messages)) keep) (λ _. refl)
      (λ _.
        outline-clear_turns (turns_to_clear messages keep)
          (record { messages = messages; cleared_turns = 0; cleared_chars = 0 }))

abbrev KeepsCounted : List AnthropicContentBlock → List AnthropicContentBlock × (ℕ × ℕ) → Type 0
KeepsCounted bs (bs', counts) = KeepsBlocks bs bs'

module _ (S : Serde) (limit : ℕ) where
  oversized_kind :
      (b : AnthropicContentBlock) → is_oversized S limit b ≡ true → b.block_type ≡ "tool_result"
  oversized_kind b h =
      let kind : str_eq b.block_type "tool_result" ≡ true = ground arith in
      (eq_iff b.block_type "tool_result").0 kind

  outline-clear_oversized_blocks :
      (bs : List AnthropicContentBlock) (counts : ℕ × ℕ)
      → KeepsCounted bs (clear_oversized_blocks S limit bs counts)
  unfolding clear_oversized_blocks
  outline-clear_oversized_blocks [] counts = refl
  outline-clear_oversized_blocks (b ∷ bs) (uses, total) =
      if_holds (KeepsCounted (b ∷ bs)) (is_oversized S limit b)
        (λ big i.
          outline-clear_result b (oversized_kind b big) i
          ∷ outline-clear_oversized_blocks bs
              (saturating_add uses 1, saturating_add total (tool_result_chars S b)) i)
        (λ _ i. block_outline b ∷ outline-clear_oversized_blocks bs (uses, total) i)

  outline-clear_oversized_content :
      (c : AnthropicContent) (counts : ℕ × ℕ)
      → content_outline (clear_oversized_content S limit c counts).0 ≡ content_outline c
  outline-clear_oversized_content (AnthropicContent.text t) counts = refl
  outline-clear_oversized_content (AnthropicContent.blocks bs) counts =
      ap AnthropicContent.blocks (outline-clear_oversized_blocks bs counts)

  outline-clear_oversized_messages :
      (ms : List AnthropicMessage) (counts : ℕ × ℕ)
      → outline (clear_oversized_messages S limit ms counts).0 ≡ outline ms
  unfolding clear_oversized_messages
  outline-clear_oversized_messages [] counts = refl
  outline-clear_oversized_messages (m ∷ ms) counts =
      let head = outline-clear_oversized_content m.content counts in
      let rest =
        outline-clear_oversized_messages ms (clear_oversized_content S limit m.content counts).1 in
      λ i. record { role = m.role; content = head i } ∷ rest i

  pub outline-clear_oversized_tool_results :
      (messages : List AnthropicMessage)
      → Keeps messages (clear_oversized_tool_results S messages limit)
  unfolding clear_oversized_tool_results
  outline-clear_oversized_tool_results messages = outline-clear_oversized_messages messages (0, 0)
