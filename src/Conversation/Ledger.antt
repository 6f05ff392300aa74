-- ===== src/Conversation/Ledger.antt =====
-- `validate_branch_against_ledger` of old_rust/crates/gateway-state/src/conversation.rs.
pub mod Agreement
use cld_gateway.Base.{
  String, ◌≡◌, Bool, true, false, Option, none, some, List, [], ◌∷◌, ◌++◌, opt_eq, is_some, is_none,
  ◌&&◌, not, if◌then◌else◌, refl, arith,
}
use cld_gateway.Base.Result.{Result, ok, err}
use cld_gateway.Conversation.Types.{
  BranchMetadata, OpenAiCheckpoint, StateError, invariant, missing_branch_created,
  last_main_turn_id_mismatch, current_checkpoint_id_mismatch, compaction_reset_mismatch,
  checkpoint_without_id, checkpoint_response_mismatch, CanonicalLedgerEvent, branch_created,
  inbound_canonical_snapshot_reconciled, main_turn_committed, side_turn_observed,
  compaction_applied,
}

-- The three variables of the loop over the ledger.
pub record Replay : Type 0 where
  pub last_main_turn_id : Option String
  pub last_provider_response_id : Option String
  pub compaction_reset_pending : Bool

abbrev pub start : Replay
start = record {
  last_main_turn_id = none;
  last_provider_response_id = none;
  compaction_reset_pending = false;
}

abbrev pub replay_event : Replay → CanonicalLedgerEvent → Replay
replay_event r (main_turn_committed turn_id response_id request items now) = record {
  last_main_turn_id = some turn_id;
  last_provider_response_id = response_id;
  compaction_reset_pending = false;
}
replay_event r (compaction_applied summary now) = record r { compaction_reset_pending = true }
replay_event r (branch_created branch parent fork now) = r
replay_event r (inbound_canonical_snapshot_reconciled hash now) = r
replay_event r (side_turn_observed turn_id request items now) = r

unfoldable pub replay : Replay → List CanonicalLedgerEvent → Replay
replay r [] = r
replay r (e ∷ es) = replay (replay_event r e) es

abbrev pub begins_with_created : List CanonicalLedgerEvent → Bool
begins_with_created (branch_created branch parent fork now ∷ es) = true
begins_with_created _ = false

abbrev pub bool_eq : Bool → Bool → Bool
bool_eq true b = b
bool_eq false b = not b

abbrev pub checkpoint_disagrees : Option OpenAiCheckpoint → Option String → Bool
checkpoint_disagrees none id = false
checkpoint_disagrees (some c) id = not (opt_eq (some c.response_id) id)

abbrev pub response_of : Option OpenAiCheckpoint → String
response_of none = ""
response_of (some c) = c.response_id

-- The checks after the loop, in the order of the code.
unfoldable pub check_branch : BranchMetadata → Replay → Result StateError (Unit {0})
check_branch b r =
    if not (opt_eq b.last_main_turn_id r.last_main_turn_id)
    then err (invariant (last_main_turn_id_mismatch b.last_main_turn_id r.last_main_turn_id))
    else if not (opt_eq b.current_checkpoint_id r.last_provider_response_id)
    then err (
        invariant
          (current_checkpoint_id_mismatch b.current_checkpoint_id r.last_provider_response_id))
    else if not (bool_eq b.compaction_reset_pending r.compaction_reset_pending)
    then err (
        invariant (compaction_reset_mismatch b.compaction_reset_pending r.compaction_reset_pending))
    else if is_none b.current_checkpoint_id && is_some b.openai_checkpoint
    then err (invariant checkpoint_without_id)
    else if checkpoint_disagrees b.openai_checkpoint b.current_checkpoint_id
    then err (
        invariant
          (checkpoint_response_mismatch (response_of b.openai_checkpoint) b.current_checkpoint_id))
    else ok tt

unfoldable pub validate_branch_against_ledger :
    BranchMetadata → List CanonicalLedgerEvent → Result StateError (Unit {0})
validate_branch_against_ledger b events =
    if begins_with_created events
    then check_branch b (replay start events)
    else err (invariant missing_branch_created)

pub replay-append :
    (r : Replay) (es : List CanonicalLedgerEvent) (e : CanonicalLedgerEvent)
    → replay r (es ++ e ∷ []) ≡ replay_event (replay r es) e
unfolding replay
replay-append r [] e = refl
replay-append r (x ∷ es) e = replay-append (replay_event r x) es e

pub begins_with_created-append :
    (es : List CanonicalLedgerEvent) (e : CanonicalLedgerEvent)
    → begins_with_created es ≡ true
    → begins_with_created (es ++ e ∷ []) ≡ true
begins_with_created-append (branch_created branch parent fork now ∷ es) e h = refl
begins_with_created-append _ e h = ground arith
