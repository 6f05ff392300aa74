-- ===== src/Conversation/Lock.antt =====
-- The session lock of old_rust/crates/gateway-state/src/conversation.rs, the quarantine of a corrupt
-- session, and the operations that callers run under the lock. The in-process mutexes are left
-- out: a poisoned one needs a panic. The lock on the file is a call that may fail.
pub mod Fresh
pub mod Laws
pub mod Faults
use cld_gateway.Base.{
  String, Bool, true, false, Option, none, some, List, [], ◌∷◌, ◌++◌, ◌&&◌, if◌then◌else◌, ℕ,
}
use cld_gateway.Base.Dict
use cld_gateway.Base.Result.{Result, ok, err}
use cld_gateway.Conversation.Types.{
  ClaudeSessionMetadata, BranchMetadata, BranchCreateParams, BranchSelectionInput,
  BranchSelectionResult, CanonicalLedgerEvent, CommitTurnParams, CommitOffshootCheckpointParams,
  ReconcileSnapshotParams, BranchFingerprintSet, StateError, io, json, invariant,
  ConversationStateCorruptionPolicy, fail_closed, quarantine_and_reset,
}
use cld_gateway.Conversation.Disk.{
  Io, World, SessionDir, QuarantineDir, QuarantineMetadata, absent, holds, pure, ◌>>=◌, ◌>>◌, touch,
  modify, create_session_dir, now_unix_seconds, new_uuid,
}
use cld_gateway.Conversation.Branches.{
  ensure_session_unlocked, create_branch_unlocked, store_branch_unlocked,
  append_ledger_event_unlocked,
}
use cld_gateway.Conversation.Selection.{select_or_create_branch_unlocked}
use cld_gateway.Conversation.Turns.{
  commit_turn_unlocked, commit_offshoot_openai_checkpoint_unlocked,
  reconcile_branch_snapshot_unlocked, apply_compaction_unlocked,
  invalidate_openai_checkpoint_unlocked,
}

abbrev pub is_recoverable_state_corruption : StateError → Bool
is_recoverable_state_corruption io = false
is_recoverable_state_corruption json = true
is_recoverable_state_corruption (invariant i) = true

abbrev pub is_quarantine : ConversationStateCorruptionPolicy → Bool
is_quarantine fail_closed = false
is_quarantine quarantine_and_reset = true

-- `SessionFileLockGuard::acquire` of `.session.lock`, which lies in the session's directory.
unfoldable pub acquire : String → Io (Unit {0})
acquire sid = do create_session_dir sid; touch; touch

-- The directory that the rename moves.
abbrev pub quarantine_dir : String → ℕ → String → SessionDir → QuarantineDir
quarantine_dir sid now id d = record {
  claude_session_id = sid;
  seconds = now;
  uuid = id;
  moved = d;
  metadata = absent;
}

abbrev pub quarantine_metadata : String → StateError → ℕ → QuarantineMetadata
quarantine_metadata sid reason now = record {
  claude_session_id = sid;
  reason = reason;
  quarantined_at_unix_seconds = now;
}

-- The first is the directory that was moved last.
abbrev pub write_metadata : QuarantineMetadata → List QuarantineDir → List QuarantineDir
write_metadata m [] = []
write_metadata m (q ∷ qs) = record q { metadata = holds m } ∷ qs

abbrev pub move_session_dir : String → QuarantineDir → World → World
move_session_dir sid q w = record w {
  sessions = Dict.remove sid w.sessions;
  quarantined = q ∷ w.quarantined;
}

abbrev pub quarantine_found : String → StateError → Option SessionDir → Io (Unit {0})
quarantine_found sid reason none = pure tt
quarantine_found sid reason (some d) = do
  touch
  now ← now_unix_seconds
  id ← new_uuid
  touch
  modify (move_session_dir sid (quarantine_dir sid now id d))
  at ← now_unix_seconds
  touch
  modify (λ w. record w {
    quarantined = write_metadata (quarantine_metadata sid reason at) w.quarantined;
  })

unfoldable pub quarantine_session_unlocked : String → StateError → Io (Unit {0})
quarantine_session_unlocked sid reason w = quarantine_found sid reason (Dict.get sid w.sessions) w

module _ {A : Type 0} where
  -- The `match` on the first run's result.
  abbrev pub or_quarantine :
      ConversationStateCorruptionPolicy → String → Io A → Result StateError A → Io A
  or_quarantine policy sid operation (ok value) w = (ok value, w)
  or_quarantine policy sid operation (err e) w =
      if is_quarantine policy && is_recoverable_state_corruption e
      then (quarantine_session_unlocked sid e >> operation) w
      else (err e, w)

  abbrev pub run_once : ConversationStateCorruptionPolicy → String → Io A → Io A
  run_once policy sid operation w =
      let (r, w') = operation w in or_quarantine policy sid operation r w'

  unfoldable pub with_session_lock : ConversationStateCorruptionPolicy → String → Io A → Io A
  with_session_lock policy sid operation = do acquire sid; run_once policy sid operation

-- The operations of a store with a corruption policy.
module _ (corruption_policy : ConversationStateCorruptionPolicy) (sid : String) where
  unfoldable pub ensure_session : Io ClaudeSessionMetadata
  ensure_session = with_session_lock corruption_policy sid (ensure_session_unlocked sid)

  unfoldable pub create_branch : BranchCreateParams → Io BranchMetadata
  create_branch params = with_session_lock corruption_policy sid (create_branch_unlocked sid params)

  unfoldable pub select_or_create_branch : BranchSelectionInput → Io BranchSelectionResult
  select_or_create_branch input =
      with_session_lock corruption_policy sid (select_or_create_branch_unlocked sid input)

  unfoldable pub store_branch : BranchMetadata → Io (Unit {0})
  store_branch branch = with_session_lock corruption_policy sid (store_branch_unlocked sid branch)

  unfoldable pub append_ledger_event : String → CanonicalLedgerEvent → Io (Unit {0})
  append_ledger_event bid event =
      with_session_lock corruption_policy sid (append_ledger_event_unlocked sid bid event)

  unfoldable pub commit_turn : String → CommitTurnParams → Io BranchMetadata
  commit_turn bid params =
      with_session_lock corruption_policy sid (commit_turn_unlocked sid bid params)

  unfoldable pub commit_offshoot_openai_checkpoint :
      String → CommitOffshootCheckpointParams → Io BranchMetadata
  commit_offshoot_openai_checkpoint bid params =
      with_session_lock corruption_policy sid
        (commit_offshoot_openai_checkpoint_unlocked sid bid params)

  unfoldable pub reconcile_branch_snapshot : String → ReconcileSnapshotParams → Io BranchMetadata
  reconcile_branch_snapshot bid params =
      with_session_lock corruption_policy sid (reconcile_branch_snapshot_unlocked sid bid params)

  unfoldable pub apply_compaction :
      String → Option String → BranchFingerprintSet → Io BranchMetadata
  apply_compaction bid summary_hash fingerprints =
      with_session_lock corruption_policy sid
        (apply_compaction_unlocked sid bid summary_hash fingerprints)

  unfoldable pub invalidate_openai_checkpoint : String → Io BranchMetadata
  invalidate_openai_checkpoint bid =
      with_session_lock corruption_policy sid (invalidate_openai_checkpoint_unlocked sid bid)
