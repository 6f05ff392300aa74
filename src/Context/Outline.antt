-- ===== src/Context/Outline.antt =====
-- What no edit changes: the messages without what may be cleared. That depends on a block's type:
-- the text and the field `thinking` of a thinking block, the text and the content of a tool result,
-- the input of a tool use, and nothing of any other block.
use cld_gateway.Base.{
  ℕ, zero, suc, String, ◌≡◌, refl, ap, sym, ◌∙◌, true, none, some, List, [], ◌∷◌, map, get_elem?,
  str_eq, if◌then◌else◌, if_holds, eq_iff, eq_refl,
}
use Prim.Native.Nat.{Ordering}
use Prim.Native.String.{compare}
use cld_gateway.Json.{Json, Fields, end, field, insert_field, remove_field}
use cld_gateway.Anthropic.{AnthropicContent, AnthropicContentBlock, AnthropicMessage}
use cld_gateway.Context.Measure.{
  block, block_of, update_at, update_content, update_block, is_thinking_block_type,
}
use cld_gateway.Context.Tools.{clear_result, clear_input}
use cld_gateway.Context.Thinking.{clear_thinking}
use cld_gateway.Context.Kinds.{kind_of, HasKind}

abbrev pub block_outline : AnthropicContentBlock → AnthropicContentBlock
block_outline b =
    if is_thinking_block_type b.block_type
    then record b { text = none; extra = remove_field "thinking" b.extra }
    else if str_eq b.block_type "tool_result"
    then record b { text = none; content = none }
    else if str_eq b.block_type "tool_use"
    then record b { input = none }
    else b

abbrev pub content_outline : AnthropicContent → AnthropicContent
content_outline (AnthropicContent.text s) = AnthropicContent.text s
content_outline (AnthropicContent.blocks bs) = AnthropicContent.blocks (map block_outline bs)

abbrev pub message_outline : AnthropicMessage → AnthropicMessage
message_outline m = record m { content = content_outline m.content }

abbrev pub outline : List AnthropicMessage → List AnthropicMessage
outline messages = map message_outline messages

-- What the three changes of a block leave.
remove_field-insert_field :
    (k : String) (v : Json) (m : Fields) → remove_field k (insert_field k v m) ≡ remove_field k m
unfolding remove_field insert_field
remove_field-insert_field k v end = rw (eq_refl k) refl
remove_field-insert_field k v (field j w m) =
    by_order (compare k j) refl (remove_field-insert_field k v m)
  where
    taken : remove_field k (field k v m) ≡ remove_field k m
    taken = rw (eq_refl k) refl

    by_order :
        (o : Ordering)
        → compare k j ≡ o
        → remove_field k (insert_field k v m) ≡ remove_field k m
        → remove_field k (elim o [
          | Ordering.lt ↦ field k v (field j w m)
          | Ordering.eq ↦ field k v m
          | Ordering.gt ↦ field j w (insert_field k v m)
        ])
          ≡ remove_field k (field j w m)
    by_order Ordering.lt h rest = rw (eq_refl k) refl
    by_order Ordering.eq h rest =
        let same : k ≡ j = (eq_iff k j).0 (rw h refl) in
        rw (eq_refl k) (rw ((eq_iff j k).1 (sym same)) refl)
    by_order Ordering.gt h rest = ap (λ r. if str_eq j k then r else field j w r) rest

pub outline-clear_result :
    (b : AnthropicContentBlock)
    → b.block_type ≡ "tool_result"
    → block_outline (clear_result b) ≡ block_outline b
outline-clear_result b h = rw h refl

pub outline-clear_input :
    (b : AnthropicContentBlock)
    → b.block_type ≡ "tool_use"
    → block_outline (clear_input b) ≡ block_outline b
outline-clear_input b h = rw h refl

pub outline-clear_thinking :
    (b : AnthropicContentBlock)
    → is_thinking_block_type b.block_type ≡ true
    → block_outline (clear_thinking b) ≡ block_outline b
unfolding clear_thinking
outline-clear_thinking b h =
    rw h (
      ap (λ e. record b { text = none; extra = e })
        (remove_field-insert_field "thinking" _ b.extra))

abbrev HasType : String → AnthropicContentBlock → Type 0
HasType kind b = b.block_type ≡ kind

-- The outline of a block has its type.
pub block_type-outline : (b : AnthropicContentBlock) → (block_outline b).block_type ≡ b.block_type
block_type-outline b =
    if_holds (HasType b.block_type) (is_thinking_block_type b.block_type) (λ _. refl)
      (λ _.
        if_holds (HasType b.block_type) (str_eq b.block_type "tool_result") (λ _. refl)
          (λ _.
            if_holds (HasType b.block_type) (str_eq b.block_type "tool_use") (λ _. refl)
              (λ _. refl)))

kind_of-outline :
    (bs : List AnthropicContentBlock) (i : ℕ)
    → kind_of (get_elem? (map block_outline bs) i) ≡ kind_of (get_elem? bs i)
kind_of-outline [] i = refl
kind_of-outline (b ∷ bs) zero = ap some (block_type-outline b)
kind_of-outline (b ∷ bs) (suc i) = kind_of-outline bs i

kind_of-content_outline :
    (c : AnthropicContent) (i : ℕ)
    → kind_of (block_of (content_outline c) i) ≡ kind_of (block_of c i)
kind_of-content_outline (AnthropicContent.text s) i = refl
kind_of-content_outline (AnthropicContent.blocks bs) i = kind_of-outline bs i

kind_of-message_outline :
    (messages : List AnthropicMessage) (m b : ℕ)
    → kind_of (block (outline messages) m b) ≡ kind_of (block messages m b)
kind_of-message_outline [] m b = refl
kind_of-message_outline (x ∷ xs) zero b = kind_of-content_outline x.content b
kind_of-message_outline (x ∷ xs) (suc m) b = kind_of-message_outline xs m b

-- Messages with the same outline have blocks of the same types.
pub HasKind-outline :
    (old new : List AnthropicMessage) (q : ℕ × ℕ) {kind : String}
    → outline new ≡ outline old
    → HasKind old q kind
    → HasKind new q kind
HasKind-outline old new (m, b) same h =
    sym (kind_of-message_outline new m b)
    ∙ ap (λ ms. kind_of (block ms m b)) same
    ∙ kind_of-message_outline old m b
    ∙ h

module _ {A B : Type 0} (g : A → B) (f : A → A) where
  -- A change at an index that a function does not see, at the element that is there.
  pub map-update_at :
      (i : ℕ) (xs : List A)
      → ((x : A) → get_elem? xs i ≡ some x → g (f x) ≡ g x)
      → map g (update_at f i xs) ≡ map g xs
  unfolding update_at
  map-update_at i [] h = refl
  map-update_at zero (x ∷ xs) h = ap (λ y. y ∷ map g xs) (h x refl)
  map-update_at (suc i) (x ∷ xs) h = ap (λ ys. g x ∷ ys) (map-update_at i xs h)

-- A change of the block at a position, whose outline is that of the block that is there.
module _ (f : AnthropicContentBlock → AnthropicContentBlock) where
  content_outline-update :
      (i : ℕ) (c : AnthropicContent)
      → ((x : AnthropicContentBlock)
          → block_of c i ≡ some x
          → block_outline (f x) ≡ block_outline x)
      → content_outline (update_content f i c) ≡ content_outline c
  content_outline-update i (AnthropicContent.text s) k = refl
  content_outline-update i (AnthropicContent.blocks bs) k =
      ap AnthropicContent.blocks (map-update_at block_outline f i bs k)

  pub outline-update_block :
      (m b : ℕ) (messages : List AnthropicMessage)
      → ((x : AnthropicContentBlock)
          → block messages m b ≡ some x
          → block_outline (f x) ≡ block_outline x)
      → outline (update_block f m b messages) ≡ outline messages
  outline-update_block m b messages k = map-update_at message_outline _ m messages (λ x e.
      ap (λ c. record x { content = c }) (content_outline-update b x.content (λ y g. k y (rw e g))))
