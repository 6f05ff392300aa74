-- ===== src/Context/Positions.antt =====
-- Positions of blocks in the messages, and interactions that do not share one.
use cld_gateway.Base.{
  ℕ, zero, suc, ◌<◌, ◌≡◌, refl, ap, some, List, [], ◌∷◌, ◌++◌, arith, length, get_elem?, inl, inr,
  ◌⊎◌,
}
use cld_gateway.Context.Interactions.{ToolInteraction}
use cld_gateway.Context.Measure.{update_at}

abbrev pub Has : ℕ × ℕ → List (ℕ × ℕ) → Type 0
Has q [] = ⊥
Has q (p ∷ ps) = (p ≡ q) ⊎ Has q ps

abbrev pub positions : ToolInteraction → List (ℕ × ℕ)
positions i = i.tool_use ∷ i.tool_results

-- Earlier in the messages.
abbrev pub Before : ℕ × ℕ → ℕ × ℕ → Type 0
Before (m, b) (m', b') = (m < m') ⊎ ((m ≡ m') × (b < b'))

-- Every position is earlier than the next one to be read, and has one interaction.
pub record Owned (is : List ToolInteraction) (next : ℕ × ℕ) : Type 0 where
  pub before :
      (i : ℕ) (x : ToolInteraction) (q : ℕ × ℕ)
      → get_elem? is i ≡ some x
      → Has q (positions x)
      → Before q next
  pub single :
      (i j : ℕ) (x y : ToolInteraction) (q : ℕ × ℕ)
      → get_elem? is i ≡ some x
      → get_elem? is j ≡ some y
      → Has q (positions x)
      → Has q (positions y)
      → i ≡ j

pub not-Before_itself : (q : ℕ × ℕ) → Before q q → ⊥
not-Before_itself (m, b) h = omega (arith, h)

pub Has-append : (q p : ℕ × ℕ) (ps : List (ℕ × ℕ)) → Has q (ps ++ p ∷ []) → Has q ps ⊎ (p ≡ q)
Has-append q p [] (inl e) = inr e
Has-append q p [] (inr h) = elim h [ ]
Has-append q p (x ∷ ps) (inl e) = inl (inl e)
Has-append q p (x ∷ ps) (inr h) = elim (Has-append q p ps h) [
  | inl old ↦ inl (inr old)
  | inr new ↦ inr new
]

pub get_elem?-snoc :
    {A : Type 0} (xs : List A) (a : A) (i : ℕ) {x : A}
    → get_elem? (xs ++ a ∷ []) i ≡ some x
    → (get_elem? xs i ≡ some x) ⊎ ((i ≡ length xs) × (a ≡ x))
get_elem?-snoc [] a zero h = inr (refl, cc)
get_elem?-snoc [] a (suc i) h = cc
get_elem?-snoc (y ∷ xs) a zero h = inl h
get_elem?-snoc (y ∷ xs) a (suc i) h = elim (get_elem?-snoc xs a i h) [
  | inl old ↦ inl old
  | inr (e, same) ↦ inr (ap suc e, same)
]

pub get_elem?-update_at :
    {A : Type 0} (f : A → A) (k : ℕ) (xs : List A) (i : ℕ) {x : A}
    → get_elem? (update_at f k xs) i ≡ some x
    → (get_elem? xs i ≡ some x) ⊎ ((i ≡ k) × ((x' : A) × (get_elem? xs i ≡ some x') × (f x' ≡ x)))
unfolding update_at
get_elem?-update_at f k [] i h = inl h
get_elem?-update_at f zero (y ∷ xs) zero h = inr (refl, (y, refl, cc))
get_elem?-update_at f zero (y ∷ xs) (suc i) h = inl h
get_elem?-update_at f (suc k) (y ∷ xs) zero h = inl h
get_elem?-update_at f (suc k) (y ∷ xs) (suc i) h = elim (get_elem?-update_at f k xs i h) [
  | inl old ↦ inl old
  | inr (e, found) ↦ inr (ap suc e, found)
]
