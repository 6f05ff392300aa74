-- ===== src/Context/Limits.antt =====
-- After the limit on the length of tool results was applied.
use cld_gateway.Base.{
  ℕ, ◌≤◌, ◌≡◌, refl, false, none, some, List, [], ◌∷◌, str_eq, inl, inr, ◌⊎◌, Bool-cases, All,
  arith,
}
use cld_gateway.Json.{string}
use cld_gateway.Codex.Serde.{Serde}
use cld_gateway.Anthropic.{AnthropicContent, AnthropicContentBlock, AnthropicMessage}
use cld_gateway.Context.Measure.{tool_result_chars}
use cld_gateway.Context.Tools.{tool_result_placeholder}
use cld_gateway.Context.Thinking.{
  is_oversized, clear_oversized_blocks, clear_oversized_content, clear_oversized_messages,
  clear_oversized_tool_results,
}

module _ (S : Serde) (limit : ℕ) where
  -- A tool result that is within the limit, or holds the placeholder alone.
  abbrev pub Limited : AnthropicContentBlock → Type 0
  Limited b =
      (str_eq b.block_type "tool_result" ≡ false)
      ⊎ ((tool_result_chars S b ≤ limit)
          ⊎ ((b.content ≡ some (string tool_result_placeholder)) × (b.text ≡ none)))

  abbrev pub LimitedContent : AnthropicContent → Type 0
  LimitedContent (AnthropicContent.text s) = Unit
  LimitedContent (AnthropicContent.blocks bs) = All Limited bs

  small-Limited : (b : AnthropicContentBlock) → is_oversized S limit b ≡ false → Limited b
  small-Limited b h = elim (Bool-cases (str_eq b.block_type "tool_result")) [
    | inl result ↦ inr (inl (ground arith))
    | inr other ↦ inl other
  ]

  blocks-Limited :
      (bs : List AnthropicContentBlock) (counts : ℕ × ℕ)
      → All Limited (clear_oversized_blocks S limit bs counts).0
  unfolding clear_oversized_blocks
  blocks-Limited [] counts = tt
  blocks-Limited (b ∷ bs) counts = elim (Bool-cases (is_oversized S limit b)) [
    | inl big ↦ rw big (inr (inr (refl, refl)), blocks-Limited bs _)
    | inr small ↦ rw small (small-Limited b small, blocks-Limited bs counts)
  ]

  content-Limited :
      (c : AnthropicContent) (counts : ℕ × ℕ)
      → LimitedContent (clear_oversized_content S limit c counts).0
  content-Limited (AnthropicContent.text s) counts = tt
  content-Limited (AnthropicContent.blocks bs) counts = blocks-Limited bs counts

  messages-Limited :
      (ms : List AnthropicMessage) (counts : ℕ × ℕ)
      → All (λ m. LimitedContent m.content) (clear_oversized_messages S limit ms counts).0
  unfolding clear_oversized_messages
  messages-Limited [] counts = tt
  messages-Limited (m ∷ ms) counts = (content-Limited m.content counts, messages-Limited ms _)

  -- After the clearing of oversized tool results, every tool result in a message has at most as
  -- many characters as the limit, or holds the placeholder.
  pub oversized-Limited :
      (messages : List AnthropicMessage)
      → All (λ m. LimitedContent m.content) (clear_oversized_tool_results S messages limit).1
  unfolding clear_oversized_tool_results
  oversized-Limited messages = messages-Limited messages (0, 0)
