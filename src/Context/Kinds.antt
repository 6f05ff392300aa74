-- ===== src/Context/Kinds.antt =====
-- The type of a block by its position, and what the positions of a collected interaction hold.
use cld_gateway.Base.{
  ℕ, zero, suc, ◌+◌, String, ◌≡◌, refl, subst, Option, none, some, List, [], ◌∷◌, ◌++◌, str_eq,
  get_elem?, All, arith, if_holds, eq_iff,
}
use cld_gateway.Base.Dict
use cld_gateway.Anthropic.{AnthropicContent, AnthropicContentBlock, AnthropicMessage}
use cld_gateway.Context.Measure.{block, block_of, update_at}
use cld_gateway.Context.Interactions.{
  ToolInteraction, Collected, add_interaction, push_result, push_at, add_result, collect_block,
  collect_blocks, collect_content, collect_messages, nothing_collected, collect_tool_interactions,
}

abbrev pub kind_of : Option AnthropicContentBlock → Option String
kind_of none = none
kind_of (some b) = some b.block_type

-- The block at the position has this type.
abbrev pub HasKind : List AnthropicMessage → ℕ × ℕ → String → Type 0
HasKind messages (m, b) kind = kind_of (block messages m b) ≡ some kind

-- The positions of an interaction are those of a tool use and of tool results.
pub record IsTyped (messages : List AnthropicMessage) (i : ToolInteraction) : Type 0 where
  pub use' : HasKind messages i.tool_use "tool_use"
  pub results : All (λ q. HasKind messages q "tool_result") i.tool_results

All-snoc :
    {A : Type 0} (P : A → Type 0) (xs : List A) (x : A) → All P xs → P x → All P (xs ++ x ∷ [])
All-snoc P [] x a p = (p, tt)
All-snoc P (y ∷ ys) x a p = (a.0, All-snoc P ys x a.1 p)

All-update_at :
    {A : Type 0} (P : A → Type 0) (f : A → A) (i : ℕ) (xs : List A)
    → ((x : A) → P x → P (f x))
    → All P xs
    → All P (update_at f i xs)
unfolding update_at
All-update_at P f i [] keep a = tt
All-update_at P f zero (x ∷ xs) keep a = (keep x a.0, a.1)
All-update_at P f (suc i) (x ∷ xs) keep a = (a.0, All-update_at P f i xs keep a.1)

module _ (messages : List AnthropicMessage) where
  abbrev AllTyped : Collected → Type 0
  AllTyped c = All (IsTyped messages) c.interactions

  add-AllTyped :
      (p : ℕ × ℕ) (name id : Option String) (c : Collected)
      → HasKind messages p "tool_use"
      → AllTyped c
      → AllTyped (add_interaction p name id c)
  add-AllTyped p name none c k a = a
  add-AllTyped p name (some id) c k a =
      All-snoc (IsTyped messages) c.interactions _ a (record { use' = k; results = tt })

  push-AllTyped :
      (p : ℕ × ℕ) (at : Option ℕ) (c : Collected)
      → HasKind messages p "tool_result"
      → AllTyped c
      → AllTyped (push_at p at c)
  push-AllTyped p none c k a = a
  push-AllTyped p (some index) c k a =
      All-update_at (IsTyped messages) (push_result p) index c.interactions
        (λ i t. record {
          use' = t.use';
          results = All-snoc (λ q. HasKind messages q "tool_result") i.tool_results p t.results k;
        })
        a

  result-AllTyped :
      (p : ℕ × ℕ) (id : Option String) (c : Collected)
      → HasKind messages p "tool_result"
      → AllTyped c
      → AllTyped (add_result p id c)
  result-AllTyped p none c k a = a
  result-AllTyped p (some id) c k a = push-AllTyped p (Dict.get id c.by_call_id) c k a

  block-AllTyped :
      (p : ℕ × ℕ) (b : AnthropicContentBlock) (c : Collected)
      → HasKind messages p b.block_type
      → AllTyped c
      → AllTyped (collect_block p b c)
  unfolding collect_block
  block-AllTyped p b c k a =
      if_holds AllTyped (str_eq b.block_type "tool_use")
        (λ e.
          add-AllTyped p b.name b.id c
            (subst (HasKind messages p) ((eq_iff b.block_type "tool_use").0 e) k) a)
        (λ _.
          if_holds AllTyped (str_eq b.block_type "tool_result")
            (λ e.
              result-AllTyped p b.tool_use_id c
                (subst (HasKind messages p) ((eq_iff b.block_type "tool_result").0 e) k) a)
            (λ _. a))

  blocks-AllTyped :
      (m b : ℕ) (bs : List AnthropicContentBlock) (c : Collected)
      → ((i : ℕ) (x : AnthropicContentBlock)
          → get_elem? bs i ≡ some x
          → HasKind messages (m, b + i) x.block_type)
      → AllTyped c
      → AllTyped (collect_blocks m b bs c)
  unfolding collect_blocks
  blocks-AllTyped m b [] c k a = a
  blocks-AllTyped m b (x ∷ xs) c k a =
      let here : b + 0 ≡ b = omega arith in
      blocks-AllTyped m (suc b) xs _
        (λ i y e.
          let next : b + suc i ≡ suc b + i = omega arith in
          subst (λ n. HasKind messages (m, n) y.block_type) next (k (suc i) y e))
        (block-AllTyped (m, b) x c
          (subst (λ n. HasKind messages (m, n) x.block_type) here (k 0 x refl)) a)

  content-AllTyped :
      (m : ℕ) (content : AnthropicContent) (c : Collected)
      → ((b : ℕ) → block messages m b ≡ block_of content b)
      → AllTyped c
      → AllTyped (collect_content m content c)
  content-AllTyped m (AnthropicContent.text s) c k a = a
  content-AllTyped m (AnthropicContent.blocks bs) c k a =
      blocks-AllTyped m 0 bs c
        (λ i x e. let from : 0 + i ≡ i = omega arith in rw from (rw (k i) (rw e refl))) a

  messages-AllTyped :
      (m : ℕ) (ms : List AnthropicMessage) (c : Collected)
      → ((i : ℕ) (x : AnthropicMessage)
          → get_elem? ms i ≡ some x
          → get_elem? messages (m + i) ≡ some x)
      → AllTyped c
      → AllTyped (collect_messages m ms c)
  unfolding collect_messages
  messages-AllTyped m [] c k a = a
  messages-AllTyped m (x ∷ xs) c k a =
      let here : m + 0 ≡ m = omega arith in
      let at : get_elem? messages m ≡ some x =
        subst (λ n. get_elem? messages n ≡ some x) here (k 0 x refl) in
      messages-AllTyped (suc m) xs _
        (λ i y e.
          let next : m + suc i ≡ suc m + i = omega arith in
          subst (λ n. get_elem? messages n ≡ some y) next (k (suc i) y e))
        (content-AllTyped m x.content c (λ b. rw at refl) a)

-- The collected interactions are typed by the messages that they are collected from.
pub collected-IsTyped :
    (messages : List AnthropicMessage) → All (IsTyped messages) (collect_tool_interactions messages)
unfolding collect_tool_interactions
collected-IsTyped messages =
    messages-AllTyped messages 0 messages nothing_collected
      (λ i x e. let from : 0 + i ≡ i = omega arith in rw from e) tt
