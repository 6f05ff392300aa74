-- ===== src/Context/Cleared.antt =====
-- The clearing of tool interactions leaves the outline of the messages.
use cld_gateway.Base.{
  ℕ, zero, suc, String, ◌≡◌, refl, ap, sym, ◌∙◌, Bool, true, false, Option, none, some, List, [],
  ◌∷◌, get_elem?, arith, if_holds, length, leb,
}
use cld_gateway.Codex.Serde.{Serde}
use cld_gateway.Anthropic.{AnthropicContentBlock, AnthropicMessage}
use cld_gateway.Context.Measure.{block}
use cld_gateway.Context.Interactions.{ToolInteraction}
use cld_gateway.Base.Usize.{wrapping_sum}
use cld_gateway.Context.Apply.{Edited}
use cld_gateway.Context.Tools.{
  eligible_from, clearable_sizes, ToolClearPolicy, Clearing, clear_result, clear_result_at,
  clear_results, clear_input, clear_input_at, clear_input_if, clear_tool_interaction, count_changed,
  clear_one, clear_candidates, too_little, candidates, clear_tool_interactions,
}
use cld_gateway.Base.{All, subst}
use cld_gateway.Context.Kinds.{HasKind, IsTyped, kind_of}
use cld_gateway.Context.Outline.{
  outline, outline-clear_result, outline-clear_input, HasKind-outline, outline-update_block,
}
pub mod Texts

-- The edit leaves the outline of the messages.
abbrev pub Keeps : List AnthropicMessage → Edited → Type 0
Keeps messages (e, messages') = outline messages' ≡ outline messages

All-weaken :
    {A : Type 0} {P Q : A → Type 0} (xs : List A) → ((x : A) → P x → Q x) → All P xs → All Q xs
All-weaken [] f a = tt
All-weaken (x ∷ xs) f a = (f x a.0, All-weaken xs f a.1)

All-get_elem? :
    {A : Type 0} (P : A → Type 0) (xs : List A) (i : ℕ) {x : A}
    → All P xs
    → get_elem? xs i ≡ some x
    → P x
All-get_elem? P [] i a e = cc
All-get_elem? P (y ∷ ys) zero {x} a e = let same : y ≡ x = cc in subst P same a.0
All-get_elem? P (y ∷ ys) (suc i) a e = All-get_elem? P ys i a.1 e

-- The block that is found has the type of its position.
found_kind :
    (messages : List AnthropicMessage) (m b : ℕ) {kind : String} (x : AnthropicContentBlock)
    → HasKind messages (m, b) kind
    → block messages m b ≡ some x
    → x.block_type ≡ kind
found_kind messages m b x h e =
    let shown : some x.block_type ≡ some _ = sym (ap kind_of e) ∙ h in cc

module _ (S : Serde) where
  outline-clear_result_at :
      (o : Option AnthropicContentBlock) (m b : ℕ) (messages : List AnthropicMessage) (chars : ℕ)
      → HasKind messages (m, b) "tool_result"
      → outline (clear_result_at S o (m, b) (messages, chars)).0 ≡ outline messages
  outline-clear_result_at none m b messages chars h = refl
  outline-clear_result_at (some old) m b messages chars h =
      outline-update_block clear_result m b messages
        (λ x e. outline-clear_result x (found_kind messages m b x h e))

  outline-clear_results :
      (positions : List (ℕ × ℕ)) (messages : List AnthropicMessage) (chars : ℕ)
      → All (λ q. HasKind messages q "tool_result") positions
      → outline (clear_results S positions (messages, chars)).0 ≡ outline messages
  unfolding clear_results
  outline-clear_results [] messages chars h = refl
  outline-clear_results ((m, b) ∷ rest) messages chars h =
      let here = outline-clear_result_at (block messages m b) m b messages chars h.0 in
      outline-clear_results rest _ _ (All-weaken rest (λ q. HasKind-outline messages _ q here) h.1)
      ∙ here

  outline-clear_input_at :
      (o : Option AnthropicContentBlock) (m b : ℕ) (messages : List AnthropicMessage) (chars : ℕ)
      → HasKind messages (m, b) "tool_use"
      → outline (clear_input_at S o (m, b) (messages, chars)).0 ≡ outline messages
  outline-clear_input_at none m b messages chars h = refl
  outline-clear_input_at (some old) m b messages chars h =
      outline-update_block clear_input m b messages
        (λ x e. outline-clear_input x (found_kind messages m b x h e))

  outline-clear_input_if :
      (inputs : Bool) (position : ℕ × ℕ) (state : List AnthropicMessage × ℕ)
      → HasKind state.0 position "tool_use"
      → outline (clear_input_if S inputs position state).0 ≡ outline state.0
  outline-clear_input_if false position state h = refl
  outline-clear_input_if true (m, b) (messages, chars) h =
      outline-clear_input_at (block messages m b) m b messages chars h

  outline-clear_tool_interaction :
      (i : ToolInteraction) (inputs : Bool) (messages : List AnthropicMessage)
      → IsTyped messages i
      → outline (clear_tool_interaction S i inputs messages).0 ≡ outline messages
  unfolding clear_tool_interaction
  outline-clear_tool_interaction i inputs messages t =
      let results = outline-clear_results i.tool_results messages 0 t.results in
      outline-clear_input_if inputs i.tool_use (clear_results S i.tool_results (messages, 0))
        (HasKind-outline messages _ i.tool_use results t.use')
      ∙ results

  -- Whether the count grows or not, the messages are the changed ones.
  pub count_changed_messages :
      (r : List AnthropicMessage × ℕ) (s : Clearing) → (count_changed r s).messages ≡ r.0
  count_changed_messages (messages, changed) s = ground arith

  IsTyped-outline :
      (old new : List AnthropicMessage) (i : ToolInteraction)
      → outline new ≡ outline old
      → IsTyped old i
      → IsTyped new i
  IsTyped-outline old new i same t = record {
    use' = HasKind-outline old new i.tool_use same t.use';
    results = All-weaken i.tool_results (λ q. HasKind-outline old new q same) t.results;
  }

  module _ (messages : List AnthropicMessage) (interactions : List ToolInteraction)
      (typed : All (IsTyped messages) interactions) where
    outline-clear_one :
        (inputs : Bool) (index : ℕ) (o : Option ToolInteraction) (s : Clearing)
        → get_elem? interactions index ≡ o
        → outline s.messages ≡ outline messages
        → outline (clear_one S inputs o s).messages ≡ outline messages
    outline-clear_one inputs index none s at same = same
    outline-clear_one inputs index (some i) s at same =
        ap outline (count_changed_messages (clear_tool_interaction S i inputs s.messages) s)
        ∙ outline-clear_tool_interaction i inputs s.messages (
            IsTyped-outline messages s.messages i same
              (All-get_elem? (IsTyped messages) interactions index typed at))
        ∙ same

    outline-clear_candidates :
        (inputs : Bool) (indices : List ℕ) (s : Clearing)
        → outline s.messages ≡ outline messages
        → outline (clear_candidates S interactions inputs indices s).messages ≡ outline messages
    unfolding clear_candidates
    outline-clear_candidates inputs [] s same = same
    outline-clear_candidates inputs (i ∷ is) s same =
        outline-clear_candidates inputs is _
          (outline-clear_one inputs i (get_elem? interactions i) s refl same)

    pub outline-clear_tool_interactions :
        (p : ToolClearPolicy) → Keeps messages (clear_tool_interactions S messages interactions p)
    unfolding clear_tool_interactions
    outline-clear_tool_interactions p =
        if_holds (Keeps messages) (leb (length interactions) p.keep) (λ _. refl)
          (λ _.
            if_holds (Keeps messages) (leb (length (eligible_from p 0 interactions)) p.keep)
              (λ _. refl)
              (λ _.
                if_holds (Keeps messages)
                  (too_little p.clear_at_least (
                    wrapping_sum (
                      clearable_sizes S messages interactions p.clear_tool_inputs
                        (candidates p interactions))))
                  (λ _. refl)
                  (λ _.
                    outline-clear_candidates p.clear_tool_inputs (candidates p interactions)
                      (record { messages = messages; cleared_tool_uses = 0; cleared_chars = 0 })
                      refl)))
