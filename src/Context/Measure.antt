-- ===== src/Context/Measure.antt =====
-- The sizes of blocks and messages, and the access to a block by its position, in
-- old_rust/crates/gateway-http-anthropic/src/context_management.rs.
use cld_gateway.Base.{
  ℕ, zero, suc, ◌/◌, String, Bool, false, Option, none, some, List, [], ◌∷◌, ◌||◌, str_eq, length,
  get_elem?, leb, if◌then◌else◌,
}
use cld_gateway.Base.Text.{codes}
use cld_gateway.Base.Usize.{usize_max, saturating_add}
use cld_gateway.Json.{Json, get_field, as_str}
use cld_gateway.Codex.Serde.{Serde}
use cld_gateway.Codex.ToolCalls.{◌>>=◌}
use cld_gateway.Anthropic.{
  AnthropicContent, AnthropicContentBlock, AnthropicContextThreshold, AnthropicMessage,
}

abbrev pub estimate_tokens : ℕ → ℕ
estimate_tokens chars = saturating_add chars 3 / 4

abbrev pub threshold_to_usize : AnthropicContextThreshold → ℕ
threshold_to_usize threshold = if leb threshold.value usize_max then threshold.value else usize_max

-- `text.chars().count()`.
unfoldable pub chars_count : String → ℕ
chars_count s = length (codes s)

-- `map_or(0, ..)` of the count.
abbrev pub text_chars : Option String → ℕ
text_chars none = 0
text_chars (some s) = chars_count s

unfoldable pub thinking_chars : AnthropicContentBlock → ℕ
thinking_chars block = text_chars (get_field "thinking" block.extra >>= as_str)

abbrev pub is_thinking_block_type : String → Bool
is_thinking_block_type block_type =
    str_eq block_type "thinking" || str_eq block_type "redacted_thinking"

abbrev pub any_thinking : List AnthropicContentBlock → Bool
any_thinking [] = false
any_thinking (b ∷ bs) = is_thinking_block_type b.block_type || any_thinking bs

abbrev pub content_has_thinking : AnthropicContent → Bool
content_has_thinking (AnthropicContent.text s) = false
content_has_thinking (AnthropicContent.blocks bs) = any_thinking bs

abbrev pub message_has_thinking : AnthropicMessage → Bool
message_has_thinking message = content_has_thinking message.content

abbrev pub block_of : AnthropicContent → ℕ → Option AnthropicContentBlock
block_of (AnthropicContent.text s) block_index = none
block_of (AnthropicContent.blocks bs) block_index = get_elem? bs block_index

-- The block at a message's index and an index in that message.
abbrev pub block : List AnthropicMessage → ℕ → ℕ → Option AnthropicContentBlock
block messages message_index block_index =
    get_elem? messages message_index >>= λ message. block_of message.content block_index

-- A change of the element at an index; out of range, nothing changes.
unfoldable pub update_at {ℓ} : {A : Type ℓ} → (A → A) → ℕ → List A → List A
update_at f i [] = []
update_at f zero (x ∷ xs) = f x ∷ xs
update_at f (suc i) (x ∷ xs) = x ∷ update_at f i xs

abbrev pub update_content :
    (AnthropicContentBlock → AnthropicContentBlock) → ℕ → AnthropicContent → AnthropicContent
update_content f i (AnthropicContent.text s) = AnthropicContent.text s
update_content f i (AnthropicContent.blocks bs) = AnthropicContent.blocks (update_at f i bs)

-- A write through `mutable_block`.
abbrev pub update_block :
    (AnthropicContentBlock → AnthropicContentBlock)
    → ℕ
    → ℕ
    → List AnthropicMessage
    → List AnthropicMessage
update_block f message_index block_index messages =
    update_at (λ message. record message { content = update_content f block_index message.content })
      message_index messages

-- `fold(0, saturating_add)`.
abbrev pub saturating_total : ℕ → List ℕ → ℕ
saturating_total total [] = total
saturating_total total (n ∷ ns) = saturating_total (saturating_add total n) ns

module _ (S : Serde) where
  -- The length of the printed value, 0 where there is none.
  abbrev pub json_chars : Option Json → ℕ
  json_chars none = 0
  json_chars (some value) = text_chars (S.print value)

  unfoldable pub tool_result_chars : AnthropicContentBlock → ℕ
  tool_result_chars b = saturating_add (json_chars b.content) (text_chars b.text)

  unfoldable pub block_chars : AnthropicContentBlock → ℕ
  block_chars b =
      saturating_add
        (saturating_add (saturating_add (text_chars b.text) (json_chars b.input))
          (tool_result_chars b))
        (thinking_chars b)

  abbrev pub block_sizes : List AnthropicContentBlock → List ℕ
  block_sizes [] = []
  block_sizes (b ∷ bs) = block_chars b ∷ block_sizes bs

  abbrev pub content_chars : AnthropicContent → ℕ
  content_chars (AnthropicContent.text s) = chars_count s
  content_chars (AnthropicContent.blocks bs) = saturating_total 0 (block_sizes bs)

  abbrev pub message_chars : AnthropicMessage → ℕ
  message_chars message = content_chars message.content

  abbrev pub message_sizes : List AnthropicMessage → List ℕ
  message_sizes [] = []
  message_sizes (m ∷ ms) = message_chars m ∷ message_sizes ms

  unfoldable pub estimated_message_tokens : List AnthropicMessage → ℕ
  estimated_message_tokens messages = estimate_tokens (saturating_total 0 (message_sizes messages))
