-- ===== src/Conversation/Turns/Checkpoints.antt =====
-- The checkpoints of turns: after a commit the prefix of the turn has that turn's checkpoint.
use cld_gateway.Base.{
  ℕ, String, ◌≡◌, refl, Bool, true, false, some, List, [], ◌∷◌, ◌++◌, filter, insert_by, sort_by,
  max_by, later_max, not, inl, inr, Bool-cases, arith, eq_refl,
}
use cld_gateway.Conversation.Types.{BranchMetadata, main, CommitTurnParams}
use cld_gateway.Conversation.Turns.{
  turn_le, same_prefix, put_turn_checkpoint, turn_checkpoint, commit_branch,
  find_turn_openai_checkpoint,
}

module _ {ℓ} {A : Type ℓ} (p : A → Bool) (le : A → A → Bool) where
  filter-insert_by :
      (x : A) (xs : List A) → p x ≡ false → filter p (insert_by le x xs) ≡ filter p xs
  unfolding insert_by
  filter-insert_by x [] h = rw h refl
  filter-insert_by x (y ∷ ys) h = elim (Bool-cases (le x y)) [
    | inl first ↦ rw first (rw h refl)
    | inr later ↦ rw later (rw (filter-insert_by x ys h) refl)
  ]

  -- The one element that passes, of a sorted list.
  filter-sort_by :
      (xs : List A) (c : A)
      → p c ≡ true
      → filter p (sort_by le (filter (λ x. not (p x)) xs ++ c ∷ [])) ≡ c ∷ []
  unfolding sort_by insert_by
  filter-sort_by [] c h = rw h refl
  filter-sort_by (x ∷ xs) c h = elim (Bool-cases (p x)) [
    | inl passes ↦ rw passes (filter-sort_by xs c h)
    | inr fails ↦ rw fails (
        rw (filter-insert_by x (sort_by le (filter (λ y. not (p y)) xs ++ c ∷ [])) fails)
          (filter-sort_by xs c h))
  ]

-- After a commit of a main turn with a response id, a model fingerprint, and the count and the
-- hash of its prefix, the lookup of that prefix finds the checkpoint of this turn, whatever was
-- stored for the prefix before.
pub find-commit_branch :
    (p : CommitTurnParams) (now : ℕ) (b : BranchMetadata) {response_id fingerprint hash : String}
    {count : ℕ}
    → p.turn_scope ≡ main
    → p.provider_response_id ≡ some response_id
    → p.provider_model_fingerprint ≡ some fingerprint
    → p.canonical_message_count ≡ some count
    → p.canonical_prefix_hash ≡ some hash
    → find_turn_openai_checkpoint (commit_branch p now b) count hash
      ≡ some (turn_checkpoint p now response_id fingerprint count hash)
unfolding find_turn_openai_checkpoint commit_branch put_turn_checkpoint max_by later_max
find-commit_branch p now b {response_id} {fingerprint} {hash} {count} scope response model counted
      hashed =
    rw scope (
      rw response (
        rw model (
          rw counted (
            rw hashed (
              rw
                (filter-sort_by (same_prefix count hash) turn_le b.turn_openai_checkpoints
                  (turn_checkpoint p now response_id fingerprint count hash)
                  (ground (arith, eq_refl hash)))
                refl)))))
