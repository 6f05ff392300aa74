-- ===== src/Context/Bounds.antt =====
-- How much an edit of tool uses clears, and what it leaves alone.
use cld_gateway.Base.{
  ℕ, zero, suc, ◌+◌, ◌-◌, ◌≤◌, ◌<◌, String, ◌≡◌, subst, Bool, Option, none, some, List, [], ◌∷◌,
  arith, length, get_elem?, leb, ltb, min, if_holds, inl, inr, Bool-cases,
}
use cld_gateway.Base.Usize.{wrapping_sum}
use cld_gateway.Codex.Serde.{Serde}
use cld_gateway.Anthropic.{AnthropicMessage}
use cld_gateway.Context.Interactions.{ToolInteraction}
use cld_gateway.Context.Report.{AppliedContextEdit}
use cld_gateway.Context.Tools.{
  ToolClearPolicy, Clearing, clear_tool_interaction, count_changed, clear_one, clear_candidates,
  too_little, candidates, take, eligible_from, clearable_sizes, clear_tool_interactions,
  report_clearing,
}
use cld_gateway.Context.Apply.{Edited}

length-take : {A : Type 0} (n : ℕ) (xs : List A) → length (take n xs) ≡ min n (length xs)
unfolding take
length-take zero xs = omega arith
length-take (suc n) [] = omega arith
length-take (suc n) (x ∷ xs) = omega (arith, length-take n xs)

module _ (S : Serde) where
  count_changed_uses :
      (r : List AnthropicMessage × ℕ) (s : Clearing)
      → (count_changed r s).cleared_tool_uses ≤ s.cleared_tool_uses + 1
  count_changed_uses (messages, changed) s = ground arith

  clear_one_uses :
      (inputs : Bool) (o : Option ToolInteraction) (s : Clearing)
      → (clear_one S inputs o s).cleared_tool_uses ≤ s.cleared_tool_uses + 1
  clear_one_uses inputs none s = omega arith
  clear_one_uses inputs (some i) s =
      count_changed_uses (clear_tool_interaction S i inputs s.messages) s

  clear_candidates_uses :
      (interactions : List ToolInteraction) (inputs : Bool) (indices : List ℕ) (s : Clearing)
      → (clear_candidates S interactions inputs indices s).cleared_tool_uses
        ≤ s.cleared_tool_uses + length indices
  unfolding clear_candidates
  clear_candidates_uses interactions inputs [] s = omega arith
  clear_candidates_uses interactions inputs (i ∷ is) s = omega (
    arith,
    clear_one_uses inputs (get_elem? interactions i) s,
    clear_candidates_uses interactions inputs is (clear_one S inputs (get_elem? interactions i) s),
  )

-- An edit that is reported cleared at least one use, and left as many as are to be kept.
abbrev Within : ℕ → ℕ → Edited → Type 0
Within keep eligible (none, messages) = Unit
Within keep eligible (some e, messages) =
    (0 < e.cleared_tool_uses) × (e.cleared_tool_uses + keep ≤ eligible)

Within-report :
    (keep eligible : ℕ) (edit_type : String) (s : Clearing)
    → s.cleared_tool_uses + keep ≤ eligible
    → Within keep eligible (report_clearing edit_type s)
Within-report keep eligible edit_type s h = elim (Bool-cases (ltb 0 s.cleared_tool_uses)) [
  | inl some_cleared ↦ rw some_cleared (ground arith, h)
  | inr none_cleared ↦ rw none_cleared tt
]

module _ (S : Serde) (messages : List AnthropicMessage) (interactions : List ToolInteraction)
    (p : ToolClearPolicy) where
  clear-Within :
      Within p.keep
        (length (eligible_from p 0 interactions))
        (clear_tool_interactions S messages interactions p)
  unfolding clear_tool_interactions candidates
  clear-Within =
      let eligible = eligible_from p 0 interactions in
      let Q : Edited → Type 0 = Within p.keep (length eligible) in
      let indices = take (length eligible - p.keep) eligible in
      if_holds Q (leb (length interactions) p.keep) (λ _. tt)
        (λ _.
          if_holds Q (leb (length eligible) p.keep) (λ _. tt)
            (λ more.
              if_holds Q
                (too_little p.clear_at_least (
                  wrapping_sum
                    (clearable_sizes S messages interactions p.clear_tool_inputs indices)))
                (λ _. tt)
                (λ _. Within-report p.keep (length eligible) p.edit_type _ (
                  ground (
                    arith,
                    length-take (length eligible - p.keep) eligible,
                    clear_candidates_uses S interactions p.clear_tool_inputs indices
                        (record { messages = messages; cleared_tool_uses = 0; cleared_chars = 0 }),
                  )))))

  -- If the clearing of tool interactions reports an edit, then it counts at least one cleared
  -- tool use, and the cleared ones and those to keep are together at most the eligible ones.
  pub cleared_tool_uses_bound :
      {e : AppliedContextEdit}
      → (clear_tool_interactions S messages interactions p).0 ≡ some e
      → (0 < e.cleared_tool_uses)
        × (e.cleared_tool_uses + p.keep ≤ length (eligible_from p 0 interactions))
  cleared_tool_uses_bound {e} reported =
      subst
        (λ o.
          Within p.keep (length (eligible_from p 0 interactions))
            (o, (clear_tool_interactions S messages interactions p).1))
        reported clear-Within
