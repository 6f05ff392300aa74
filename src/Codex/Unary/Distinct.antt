-- ===== src/Codex/Unary/Distinct.antt =====
-- Lists without repetitions: of fingerprints, and of the ids of calls.
use cld_gateway.Base.{
  String, ◌≡◌, refl, subst, false, List, [], ◌∷◌, ◌++◌, ◌||◌, str_eq, arith, inl, inr, Bool-cases,
  eq_iff,
}
use cld_gateway.Codex.Types.{CodexToolCall}
use cld_gateway.Codex.Completed.{contains}
use cld_gateway.Codex.Unary.{upsert_tool_call}

-- No element is in the list twice.
abbrev pub Distinct : List String → Type 0
Distinct [] = Unit
Distinct (x ∷ xs) = (contains xs x ≡ false) × Distinct xs

contains-append :
    (xs : List String) (x y : String) → contains (xs ++ x ∷ []) y ≡ (contains xs y || str_eq x y)
unfolding contains
contains-append [] x y = ground arith
contains-append (z ∷ xs) x y = ground (arith, contains-append xs x y)

pub Distinct-append :
    (xs : List String) (x : String) → Distinct xs → contains xs x ≡ false → Distinct (xs ++ x ∷ [])
unfolding contains
Distinct-append [] x d n = (refl, tt)
Distinct-append (y ∷ xs) x d n = (
  ground (arith, contains-append xs x y, eq_iff x y, eq_iff y x),
  Distinct-append xs x d.1 (ground arith),
)

abbrev pub call_ids : List CodexToolCall → List String
call_ids [] = []
call_ids (c ∷ cs) = c.call_id ∷ call_ids cs

contains-upsert :
    (call : CodexToolCall) (cs : List CodexToolCall) (id : String)
    → contains (call_ids (upsert_tool_call call cs)) id
      ≡ (contains (call_ids cs) id || str_eq call.call_id id)
unfolding contains upsert_tool_call
contains-upsert call [] id = ground arith
contains-upsert call (c ∷ cs) id = ground (
  arith,
  contains-upsert call cs id,
  eq_iff c.call_id call.call_id,
  eq_iff c.call_id id,
  eq_iff call.call_id id,
)

pub Distinct-upsert :
    (call : CodexToolCall) (cs : List CodexToolCall)
    → Distinct (call_ids cs)
    → Distinct (call_ids (upsert_tool_call call cs))
unfolding upsert_tool_call contains
Distinct-upsert call [] d = (refl, tt)
Distinct-upsert call (c ∷ cs) d = elim (Bool-cases (str_eq c.call_id call.call_id)) [
  | inl same ↦ rw same (
    subst (λ i. contains (call_ids cs) i ≡ false) ((eq_iff c.call_id call.call_id).0 same) d.0,
    d.1,
  )
  | inr other ↦ rw other (
    ground (
      arith,
      contains-upsert call cs c.call_id,
      eq_iff c.call_id call.call_id,
      eq_iff call.call_id c.call_id,
    ),
    Distinct-upsert call cs d.1,
  )
]
