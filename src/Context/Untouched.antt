-- ===== src/Context/Untouched.antt =====
-- The blocks that an edit of tool uses does not touch are what they were.
use cld_gateway.Base.{
  ℕ, zero, suc, ◌≡◌, ◌≢◌, refl, ap, ◌∙◌, Bool, true, false, Option, none, some, List, [], ◌∷◌,
  length, get_elem?, leb, if_holds, All,
}
use cld_gateway.Base.Usize.{wrapping_sum}
use cld_gateway.Codex.Serde.{Serde}
use cld_gateway.Anthropic.{AnthropicContent, AnthropicContentBlock, AnthropicMessage}
use cld_gateway.Context.Interactions.{ToolInteraction}
use cld_gateway.Context.Measure.{block, block_of, update_at, update_content, update_block}
use cld_gateway.Context.Tools.{
  ToolClearPolicy, Clearing, clear_result, clear_input, clear_result_at, clear_results,
  clear_input_at, clear_tool_interaction, clear_one, clear_candidates, too_little, candidates,
  eligible_from, clearable_sizes, clear_tool_interactions,
}
use cld_gateway.Context.Apply.{Edited}
use cld_gateway.Context.Cleared.{count_changed_messages}

-- Another position.
abbrev pub Other : ℕ × ℕ → ℕ × ℕ → Type 0
Other p q = p ≢ q

pub get_elem?-update_at_ne {ℓ} :
    {A : Type ℓ} (f : A → A) (i j : ℕ) (xs : List A)
    → i ≢ j
    → get_elem? (update_at f i xs) j ≡ get_elem? xs j
unfolding update_at
get_elem?-update_at_ne f i j [] h = refl
get_elem?-update_at_ne f zero zero (x ∷ xs) h = absurd (h refl)
get_elem?-update_at_ne f zero (suc j) (x ∷ xs) h = refl
get_elem?-update_at_ne f (suc i) zero (x ∷ xs) h = refl
get_elem?-update_at_ne f (suc i) (suc j) (x ∷ xs) h =
    get_elem?-update_at_ne f i j xs (λ e. h (ap suc e))

block_of-update_ne :
    (f : AnthropicContentBlock → AnthropicContentBlock) (b b' : ℕ) (c : AnthropicContent)
    → b ≢ b'
    → block_of (update_content f b c) b' ≡ block_of c b'
block_of-update_ne f b b' (AnthropicContent.text s) h = refl
block_of-update_ne f b b' (AnthropicContent.blocks bs) h = get_elem?-update_at_ne f b b' bs h

block-update_block_ne :
    (f : AnthropicContentBlock → AnthropicContentBlock) (m b m' b' : ℕ) (ms : List AnthropicMessage)
    → Other (m, b) (m', b')
    → block (update_block f m b ms) m' b' ≡ block ms m' b'
unfolding update_at
block-update_block_ne f m b m' b' [] h = refl
block-update_block_ne f zero b zero b' (x ∷ xs) h =
    block_of-update_ne f b b' x.content (λ e. h (ap (λ k. (zero, k)) e))
block-update_block_ne f zero b (suc m') b' (x ∷ xs) h = refl
block-update_block_ne f (suc m) b zero b' (x ∷ xs) h = refl
block-update_block_ne f (suc m) b (suc m') b' (x ∷ xs) h =
    block-update_block_ne f m b m' b' xs (λ e. h (ap (λ q. (suc q.0, q.1)) e))

-- The position is none of the list.
abbrev pub Apart : ℕ × ℕ → List (ℕ × ℕ) → Type 0
Apart position positions = All (λ q. Other q position) positions

-- The blocks that the clearing of an interaction writes.
abbrev pub touched : Bool → ToolInteraction → List (ℕ × ℕ)
touched false i = i.tool_results
touched true i = i.tool_use ∷ i.tool_results

abbrev pub touched_at : Bool → Option ToolInteraction → List (ℕ × ℕ)
touched_at inputs none = []
touched_at inputs (some i) = touched inputs i

-- The position is apart from what the interactions at the indices touch.
abbrev pub ApartFrom : ℕ × ℕ → Bool → List ToolInteraction → List ℕ → Type 0
ApartFrom position inputs interactions indices =
    All (λ i. Apart position (touched_at inputs (get_elem? interactions i))) indices

module _ (S : Serde) (m b : ℕ) where
  abbrev SameBlock : List AnthropicMessage → List AnthropicMessage → Type 0
  SameBlock messages messages' = block messages' m b ≡ block messages m b

  clear_result_at_same :
      (o : Option AnthropicContentBlock) (m' b' : ℕ) (messages : List AnthropicMessage) (chars : ℕ)
      → Other (m', b') (m, b)
      → SameBlock messages (clear_result_at S o (m', b') (messages, chars)).0
  clear_result_at_same none m' b' messages chars h = refl
  clear_result_at_same (some old) m' b' messages chars h =
      block-update_block_ne clear_result m' b' m b messages h

  clear_results_same :
      (positions : List (ℕ × ℕ)) (messages : List AnthropicMessage) (chars : ℕ)
      → Apart (m, b) positions
      → SameBlock messages (clear_results S positions (messages, chars)).0
  unfolding clear_results
  clear_results_same [] messages chars h = refl
  clear_results_same ((m', b') ∷ rest) messages chars h =
      clear_results_same rest _ _ h.1
      ∙ clear_result_at_same (block messages m' b') m' b' messages chars h.0

  clear_input_at_same :
      (o : Option AnthropicContentBlock) (m' b' : ℕ) (messages : List AnthropicMessage) (chars : ℕ)
      → Other (m', b') (m, b)
      → SameBlock messages (clear_input_at S o (m', b') (messages, chars)).0
  clear_input_at_same none m' b' messages chars h = refl
  clear_input_at_same (some old) m' b' messages chars h =
      block-update_block_ne clear_input m' b' m b messages h

  clear_tool_interaction_same :
      (i : ToolInteraction) (inputs : Bool) (messages : List AnthropicMessage)
      → Apart (m, b) (touched inputs i)
      → SameBlock messages (clear_tool_interaction S i inputs messages).0
  unfolding clear_tool_interaction
  clear_tool_interaction_same i false messages h = clear_results_same i.tool_results messages 0 h
  clear_tool_interaction_same i true messages h =
      clear_input_at_same _ i.tool_use.0 i.tool_use.1 _ _ h.0
      ∙ clear_results_same i.tool_results messages 0 h.1

  clear_one_same :
      (inputs : Bool) (o : Option ToolInteraction) (s : Clearing)
      → Apart (m, b) (touched_at inputs o)
      → SameBlock s.messages (clear_one S inputs o s).messages
  clear_one_same inputs none s h = refl
  clear_one_same inputs (some i) s h =
      ap (λ ms. block ms m b)
        (count_changed_messages S (clear_tool_interaction S i inputs s.messages) s)
      ∙ clear_tool_interaction_same i inputs s.messages h

  clear_candidates_same :
      (interactions : List ToolInteraction) (inputs : Bool) (indices : List ℕ) (s : Clearing)
      → ApartFrom (m, b) inputs interactions indices
      → SameBlock s.messages (clear_candidates S interactions inputs indices s).messages
  unfolding clear_candidates
  clear_candidates_same interactions inputs [] s h = refl
  clear_candidates_same interactions inputs (i ∷ is) s h =
      clear_candidates_same interactions inputs is _ h.1
      ∙ clear_one_same inputs (get_elem? interactions i) s h.0

  pub clear_tool_interactions_same :
      (messages : List AnthropicMessage) (interactions : List ToolInteraction) (p : ToolClearPolicy)
      → ApartFrom (m, b) p.clear_tool_inputs interactions (candidates p interactions)
      → block (clear_tool_interactions S messages interactions p).1 m b ≡ block messages m b
  unfolding clear_tool_interactions
  clear_tool_interactions_same messages interactions p h =
      let Q : Edited → Type 0 = λ e. SameBlock messages e.1 in
      if_holds Q (leb (length interactions) p.keep) (λ _. refl)
        (λ _.
          if_holds Q (leb (length (eligible_from p 0 interactions)) p.keep) (λ _. refl)
            (λ _.
              if_holds Q
                (too_little p.clear_at_least (
                  wrapping_sum (
                    clearable_sizes S messages interactions p.clear_tool_inputs
                      (candidates p interactions))))
                (λ _. refl)
                (λ _.
                  clear_candidates_same interactions p.clear_tool_inputs (candidates p interactions)
                    (record { messages = messages; cleared_tool_uses = 0; cleared_chars = 0 }) h)))
