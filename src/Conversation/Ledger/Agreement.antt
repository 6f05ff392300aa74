-- ===== src/Conversation/Ledger/Agreement.antt =====
-- What `validate_branch_against_ledger` decides.
use cld_gateway.Base.{
  String, ◌≡◌, ◌↔◌, refl, true, false, Option, none, some, List, arith, opt_eq_iff, eq_iff, inl,
  inr, Bool-cases,
}
use cld_gateway.Base.Result.{ok}
use cld_gateway.Conversation.Types.{BranchMetadata, OpenAiCheckpoint, CanonicalLedgerEvent}
use cld_gateway.Conversation.Ledger.{
  Replay, start, replay, begins_with_created, check_branch, checkpoint_disagrees,
  validate_branch_against_ledger,
}

-- A provider checkpoint is the current checkpoint.
abbrev pub IsCurrent : Option OpenAiCheckpoint → Option String → Type 0
IsCurrent none id = Unit
IsCurrent (some c) id = id ≡ some c.response_id

-- The branch says what the ledger says.
pub record Matches (b : BranchMetadata) (r : Replay) : Type 0 where
  pub turn : b.last_main_turn_id ≡ r.last_main_turn_id
  pub checkpoint : b.current_checkpoint_id ≡ r.last_provider_response_id
  pub reset : b.compaction_reset_pending ≡ r.compaction_reset_pending
  pub current : IsCurrent b.openai_checkpoint b.current_checkpoint_id

pub record Agrees (b : BranchMetadata) (es : List CanonicalLedgerEvent) : Type 0 where
  pub created : begins_with_created es ≡ true
  pub matches : Matches b (replay start es)

-- The last of the checks.
IsCurrent-iff :
    (o : Option OpenAiCheckpoint) (id : Option String)
    → (checkpoint_disagrees o id ≡ false) ↔ IsCurrent o id
IsCurrent-iff none id = ((λ _. tt), (λ _. refl))
IsCurrent-iff (some c) none = ((λ h. cc), (λ h. cc))
IsCurrent-iff (some c) (some id) =
    ((λ h. ground (arith, eq_iff c.response_id id)), (λ h. ground (arith, eq_iff c.response_id id)))

module _ (b : BranchMetadata) (r : Replay) (h : check_branch b r ≡ ok tt) where
  check_branch_turn : b.last_main_turn_id ≡ r.last_main_turn_id
  unfolding check_branch
  check_branch_turn = ground (arith, opt_eq_iff b.last_main_turn_id r.last_main_turn_id)

  check_branch_checkpoint : b.current_checkpoint_id ≡ r.last_provider_response_id
  unfolding check_branch
  check_branch_checkpoint =
      ground (arith, opt_eq_iff b.current_checkpoint_id r.last_provider_response_id)

  check_branch_reset : b.compaction_reset_pending ≡ r.compaction_reset_pending
  unfolding check_branch
  check_branch_reset = ground arith

  check_branch_current : checkpoint_disagrees b.openai_checkpoint b.current_checkpoint_id ≡ false
  unfolding check_branch
  check_branch_current = ground arith

  check_branch-Matches : Matches b r
  check_branch-Matches = record {
    turn = check_branch_turn;
    checkpoint = check_branch_checkpoint;
    reset = check_branch_reset;
    current = (IsCurrent-iff b.openai_checkpoint b.current_checkpoint_id).0 check_branch_current;
  }

Matches-check_branch : (b : BranchMetadata) (r : Replay) → Matches b r → check_branch b r ≡ ok tt
unfolding check_branch
Matches-check_branch b r m = ground (
  arith,
  opt_eq_iff b.last_main_turn_id r.last_main_turn_id,
  opt_eq_iff b.current_checkpoint_id r.last_provider_response_id,
  IsCurrent-iff b.openai_checkpoint b.current_checkpoint_id,
)

-- The validation of a branch succeeds exactly when the ledger begins with the branch's creation,
-- the branch's last main turn, current checkpoint and pending reset are what the ledger's events
-- add up to, and the provider checkpoint, if there is one, is the current one.
pub validate_iff :
    (b : BranchMetadata) (es : List CanonicalLedgerEvent)
    → (validate_branch_against_ledger b es ≡ ok tt) ↔ Agrees b es
unfolding validate_branch_against_ledger
validate_iff b es = elim (Bool-cases (begins_with_created es)) [
  | inl yes_created ↦ (
    (λ h. record {
      created = yes_created;
      matches = check_branch-Matches b (replay start es) (rw yes_created at h);
    }),
    (λ a. rw yes_created (Matches-check_branch b (replay start es) a.matches)),
  )
  | inr not_created ↦ ((λ h. cc (rw not_created at h)), (λ a. cc (a.created, not_created)))
]
