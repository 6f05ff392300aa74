-- ===== src/Context/Owners.antt =====
-- A block belongs to at most one tool interaction, so that the interactions that are kept keep all
-- of their blocks.
use cld_gateway.Base.{
  ℕ, suc, ◌+◌, String, ◌≡◌, ◌≢◌, refl, sym, ◌∙◌, subst, Bool, true, false, Option, none, some, List,
  [], ◌∷◌, ◌++◌, arith, length, get_elem?, All, inl, inr, ◌⊎◌, str_eq, if_holds,
}
use cld_gateway.Base.Dict
use cld_gateway.Base.Dict.{Dict}
use cld_gateway.Codex.Serde.{Serde}
use cld_gateway.Anthropic.{AnthropicContent, AnthropicContentBlock, AnthropicMessage}
use cld_gateway.Context.Interactions.{
  ToolInteraction, Collected, add_interaction, push_result, push_at, add_result, collect_block,
  collect_blocks, collect_content, collect_messages, collect_tool_interactions, nothing_collected,
}
use cld_gateway.Context.Measure.{block, update_at}
use cld_gateway.Context.Tools.{ToolClearPolicy, candidates, clear_tool_interactions}
use cld_gateway.Context.Untouched.{
  Apart, ApartFrom, touched, touched_at, clear_tool_interactions_same,
}
use cld_gateway.Context.Positions.{
  Has, positions, Before, Owned, not-Before_itself, Has-append, get_elem?-snoc, get_elem?-update_at,
}

-- After one block at `p`, a position belongs to an interaction as before, or it is `p`, which
-- belongs to the interaction at `k` alone.
pub record Extends (is is' : List ToolInteraction) (p : ℕ × ℕ) (k : ℕ) : Type 0 where
  pub owner :
      (i : ℕ) (x : ToolInteraction) (q : ℕ × ℕ)
      → get_elem? is' i ≡ some x
      → Has q (positions x)
      → ((x' : ToolInteraction) × (get_elem? is i ≡ some x') × Has q (positions x'))
        ⊎ ((p ≡ q) × (i ≡ k))

Extends-Owned :
    (is is' : List ToolInteraction) (p : ℕ × ℕ) (k : ℕ) (next : ℕ × ℕ)
    → Owned is p
    → Extends is is' p k
    → ((q : ℕ × ℕ) → Before q p → Before q next)
    → Before p next
    → Owned is' next
Extends-Owned is is' p k next o e later now = record {
  before = λ i x q at has. elim (e.owner i x q at has) [
    | inl (x', at', has') ↦ later q (o.before i x' q at' has')
    | inr (same, i_k) ↦ subst (λ r. Before r next) same now
  ];
  single = λ i j x y q at_i at_j has_x has_y. elim (e.owner i x q at_i has_x) [
    | inl (x', at_i', has_x') ↦ elim (e.owner j y q at_j has_y) [
      | inl (y', at_j', has_y') ↦ o.single i j x' y' q at_i' at_j' has_x' has_y'
      | inr (same, j_k) ↦
          absurd (
            not-Before_itself p (subst (λ r. Before r p) (sym same) (o.before i x' q at_i' has_x')))
    ]
    | inr (same, i_k) ↦ elim (e.owner j y q at_j has_y) [
      | inl (y', at_j', has_y') ↦
          absurd (
            not-Before_itself p (subst (λ r. Before r p) (sym same) (o.before j y' q at_j' has_y')))
      | inr (same', j_k) ↦ i_k ∙ sym j_k
    ]
  ];
}

add-Extends :
    (is : List ToolInteraction) (p : ℕ × ℕ) (name : Option String)
    → Extends is (is ++ record { name = name; tool_use = p; tool_results = [] } ∷ []) p (length is)
add-Extends is p name = record {
  owner = λ i x q at has.
      elim (get_elem?-snoc is (record { name = name; tool_use = p; tool_results = [] }) i at) [
        | inl old ↦ inl (x, old, has)
        | inr (last, same) ↦ elim (subst (λ y. Has q (positions y)) (sym same) has) [
          | inl e ↦ inr (e, last)
          | inr nothing ↦ absurd nothing
        ]
      ];
}

push-Extends :
    (is : List ToolInteraction) (p : ℕ × ℕ) (k : ℕ)
    → Extends is (update_at (push_result p) k is) p k
push-Extends is p k = record {
  owner = λ i x q at has. elim (get_elem?-update_at (push_result p) k is i at) [
    | inl old ↦ inl (x, old, has)
    | inr (i_k, (x', at', same)) ↦
        elim (Has-append q p (positions x') (subst (λ y. Has q (positions y)) (sym same) has)) [
          | inl has' ↦ inl (x', at', has')
          | inr new ↦ inr (new, i_k)
        ]
  ];
}

-- Time passes, or one block is read.
module _ (p next : ℕ × ℕ) (later : (q : ℕ × ℕ) → Before q p → Before q next)
    (now : Before p next) where
  waited : (is : List ToolInteraction) → Owned is p → Owned is next
  waited is o = record {
    before = λ i x q at has. later q (o.before i x q at has);
    single = o.single;
  }

  add_interaction-Owned :
      (name id : Option String) (c : Collected)
      → Owned c.interactions p
      → Owned (add_interaction p name id c).interactions next
  add_interaction-Owned name none c o = waited c.interactions o
  add_interaction-Owned name (some call_id) c o =
      Extends-Owned c.interactions _ p (length c.interactions) next o
        (add-Extends c.interactions p name) later now

  push_at-Owned :
      (k : Option ℕ) (c : Collected)
      → Owned c.interactions p
      → Owned (push_at p k c).interactions next
  push_at-Owned none c o = waited c.interactions o
  push_at-Owned (some k) c o =
      Extends-Owned c.interactions _ p k next o (push-Extends c.interactions p k) later now

  add_result-Owned :
      (id : Option String) (c : Collected)
      → Owned c.interactions p
      → Owned (add_result p id c).interactions next
  add_result-Owned none c o = waited c.interactions o
  add_result-Owned (some call_id) c o = push_at-Owned (Dict.get call_id c.by_call_id) c o

  collect_block-Owned :
      (x : AnthropicContentBlock) (c : Collected)
      → Owned c.interactions p
      → Owned (collect_block p x c).interactions next
  unfolding collect_block
  collect_block-Owned x c o =
      let Q : Collected → Type 0 = λ d. Owned d.interactions next in
      if_holds Q (str_eq x.block_type "tool_use") (λ _. add_interaction-Owned x.name x.id c o)
        (λ _.
          if_holds Q (str_eq x.block_type "tool_result") (λ _. add_result-Owned x.tool_use_id c o)
            (λ _. waited c.interactions o))

next_block : (m b : ℕ) (q : ℕ × ℕ) → Before q (m, b) → Before q (m, suc b)
next_block m b (m', b') h = omega (arith, h)

next_message : (m b : ℕ) (q : ℕ × ℕ) → Before q (m, b) → Before q (suc m, 0)
next_message m b (m', b') h = omega (arith, h)

collect_blocks-Owned :
    (m b : ℕ) (bs : List AnthropicContentBlock) (c : Collected)
    → Owned c.interactions (m, b)
    → Owned (collect_blocks m b bs c).interactions (suc m, 0)
unfolding collect_blocks
collect_blocks-Owned m b [] c o = record {
  before = λ i x q at has. next_message m b q (o.before i x q at has);
  single = o.single;
}
collect_blocks-Owned m b (x ∷ xs) c o =
    collect_blocks-Owned m (suc b) xs (collect_block (m, b) x c)
      (collect_block-Owned (m, b) (m, suc b) (next_block m b) (inr (refl, omega arith)) x c o)

collect_content-Owned :
    (m : ℕ) (x : AnthropicContent) (c : Collected)
    → Owned c.interactions (m, 0)
    → Owned (collect_content m x c).interactions (suc m, 0)
collect_content-Owned m (AnthropicContent.text s) c o = record {
  before = λ i x q at has. next_message m 0 q (o.before i x q at has);
  single = o.single;
}
collect_content-Owned m (AnthropicContent.blocks bs) c o = collect_blocks-Owned m 0 bs c o

collect_messages-Owned :
    (m : ℕ) (ms : List AnthropicMessage) (c : Collected)
    → Owned c.interactions (m, 0)
    → Owned (collect_messages m ms c).interactions (m + length ms, 0)
unfolding collect_messages
collect_messages-Owned m [] c o = subst (λ k. Owned c.interactions (k, 0)) (omega arith) o
collect_messages-Owned m (x ∷ xs) c o =
    subst
      (λ k. Owned (collect_messages (suc m) xs (collect_content m x.content c)).interactions (k, 0))
      (omega arith)
      (collect_messages-Owned (suc m) xs (collect_content m x.content c)
        (collect_content-Owned m x.content c o))

pub collected-Owned :
    (messages : List AnthropicMessage)
    → Owned (collect_tool_interactions messages) (0 + length messages, 0)
unfolding collect_tool_interactions
collected-Owned messages =
    collect_messages-Owned 0 messages nothing_collected
      (record { before = λ i x q at has. cc; single = λ i j x y q at_i at_j has_x has_y. cc })

-- A position of one interaction is apart from the other interactions.
module _ (is : List ToolInteraction) (next : ℕ × ℕ) (o : Owned is next) (q : ℕ × ℕ) where
  not_found : (ps : List (ℕ × ℕ)) → (Has q ps → ⊥) → Apart q ps
  not_found [] h = tt
  not_found (p ∷ ps) h = ((λ e. h (inl e)), not_found ps (λ has. h (inr has)))

  Has-touched :
      (inputs : Bool) (x : ToolInteraction) → Has q (touched inputs x) → Has q (positions x)
  Has-touched true x h = h
  Has-touched false x h = inr h

  other-Apart :
      (inputs : Bool) (i j : ℕ) (y : ToolInteraction) (found : Option ToolInteraction)
      → get_elem? is i ≡ found
      → get_elem? is j ≡ some y
      → Has q (positions y)
      → i ≢ j
      → Apart q (touched_at inputs found)
  other-Apart inputs i j y none at_i at_j has ne = tt
  other-Apart inputs i j y (some x) at_i at_j has ne =
      not_found (touched inputs x)
        (λ h. ne (o.single i j x y q at_i at_j (Has-touched inputs x h) has))

  others-Apart :
      (inputs : Bool) (indices : List ℕ) (j : ℕ) (y : ToolInteraction)
      → get_elem? is j ≡ some y
      → Has q (positions y)
      → All (λ i. i ≢ j) indices
      → ApartFrom q inputs is indices
  others-Apart inputs [] j y at has ne = tt
  others-Apart inputs (i ∷ indices) j y at has ne = (
    other-Apart inputs i j y (get_elem? is i) refl at has ne.0,
    others-Apart inputs indices j y at has ne.1,
  )

-- For the tool interactions that are collected from the messages: if an interaction is not among
-- those that are chosen for clearing, then every one of its blocks, the use and the results, is
-- after the clearing what it was.
pub kept_interaction_same :
    (S : Serde) (messages : List AnthropicMessage) (p : ToolClearPolicy) (j : ℕ)
    (y : ToolInteraction) (m b : ℕ)
    → get_elem? (collect_tool_interactions messages) j ≡ some y
    → All (λ i. i ≢ j) (candidates p (collect_tool_interactions messages))
    → Has (m, b) (positions y)
    → block (clear_tool_interactions S messages (collect_tool_interactions messages) p).1 m b
      ≡ block messages m b
kept_interaction_same S messages p j y m b at kept has =
    clear_tool_interactions_same S m b messages (collect_tool_interactions messages) p (
      others-Apart (collect_tool_interactions messages) (0 + length messages, 0)
        (collected-Owned messages) (m, b) p.clear_tool_inputs
        (candidates p (collect_tool_interactions messages)) j y at has kept)
