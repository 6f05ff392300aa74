-- ===== src/Conversation/Turns/Others.antt =====
-- Which of the other operations on a branch keep it in agreement with its ledger.
use cld_gateway.Base.{
  ℕ, String, ◌≡◌, refl, Option, none, some, List, [], ◌∷◌, ◌++◌, arith, opt_eq_iff,
}
use cld_gateway.Base.Result.{err}
use cld_gateway.Conversation.Types.{
  BranchMetadata, BranchFingerprintSet, CommitOffshootCheckpointParams, ReconcileSnapshotParams,
  CanonicalLedgerEvent, compaction_applied, inbound_canonical_snapshot_reconciled, invariant,
  current_checkpoint_id_mismatch,
}
use cld_gateway.Conversation.Ledger.{
  start, replay, replay-append, begins_with_created-append, validate_branch_against_ledger,
  check_branch,
}
use cld_gateway.Conversation.Ledger.Agreement.{Agrees}
use cld_gateway.Conversation.Turns.{
  offshoot_branch, reconciled_branch, compacted_branch, invalidated_branch,
}

module _ (b : BranchMetadata) (es : List CanonicalLedgerEvent) (a : Agrees b es) (now : ℕ) where
  pub retimed-Agrees : Agrees (record b { updated_at_unix_seconds = now }) es
  retimed-Agrees = record {
    created = a.created;
    matches = record {
      turn = a.matches.turn;
      checkpoint = a.matches.checkpoint;
      reset = a.matches.reset;
      current = a.matches.current;
    };
  }

  pub offshoot-Agrees : (p : CommitOffshootCheckpointParams) → Agrees (offshoot_branch p now b) es
  unfolding offshoot_branch
  offshoot-Agrees p = record {
    created = a.created;
    matches = record {
      turn = a.matches.turn;
      checkpoint = a.matches.checkpoint;
      reset = a.matches.reset;
      current = a.matches.current;
    };
  }

  pub reconciled-Agrees : (p : ReconcileSnapshotParams) → Agrees (reconciled_branch p now b) es
  unfolding reconciled_branch
  reconciled-Agrees p = record {
    created = a.created;
    matches = record {
      turn = a.matches.turn;
      checkpoint = a.matches.checkpoint;
      reset = a.matches.reset;
      current = a.matches.current;
    };
  }

  pub compacted-Agrees :
      (fingerprints : BranchFingerprintSet) (summary : Option String) (at : ℕ)
      → Agrees (compacted_branch fingerprints now b) (es ++ compaction_applied summary at ∷ [])
  unfolding compacted_branch
  compacted-Agrees fingerprints summary at = record {
    created = begins_with_created-append es _ a.created;
    matches = rw replay-append (record {
      turn = a.matches.turn;
      checkpoint = a.matches.checkpoint;
      reset = refl;
      current = a.matches.current;
    });
  }

  pub snapshot-Agrees :
      (hash : Option String) (at : ℕ)
      → Agrees b (es ++ inbound_canonical_snapshot_reconciled hash at ∷ [])
  snapshot-Agrees hash at = record {
    created = begins_with_created-append es _ a.created;
    matches = rw replay-append a.matches;
  }

  -- An invalidation drops the current checkpoint, and the ledger does not say so.
  pub invalidated_invalid :
      {id : String}
      → b.current_checkpoint_id ≡ some id
      → validate_branch_against_ledger (invalidated_branch now b) es
        ≡ err (invariant (current_checkpoint_id_mismatch none (some id)))
  unfolding validate_branch_against_ledger invalidated_branch check_branch
  invalidated_invalid {id} h = ground (
    arith,
    opt_eq_iff b.last_main_turn_id (replay start es).last_main_turn_id,
    a.created,
    a.matches.turn,
    a.matches.checkpoint,
  )
