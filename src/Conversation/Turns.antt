-- ===== src/Conversation/Turns.antt =====
-- The operations without the lock that change one branch of
-- old_rust/crates/gateway-state/src/conversation.rs: commits of turns and checkpoints, snapshot
-- reconciliation, compaction and invalidation.
pub mod Effects
pub mod Created
pub mod Offshoots
pub mod Others
pub mod Commit
pub mod Store
pub mod Reload
pub mod Snapshots
pub mod Checkpoints
use cld_gateway.Base.{
  ℕ, String, Bool, true, false, Option, none, some, List, [], ◌∷◌, ◌++◌, str_eq, filter, ◌&&◌, ◌||◌,
  not, if◌then◌else◌, ltb, leb, ◌==◌, sort_by, max_by,
}
use cld_gateway.Json.{Json, Json-discrete}
use cld_gateway.Conversation.Types.{
  BranchFingerprintSet, BranchMetadata, OpenAiCheckpoint, TurnOpenAiCheckpoint,
  OffshootOpenAiCheckpoint, ConversationTurnScope, main, side, CommitTurnParams,
  CommitOffshootCheckpointParams, ReconcileSnapshotParams, SparseCheckpointKind,
  CanonicalLedgerEvent, inbound_canonical_snapshot_reconciled, main_turn_committed,
  side_turn_observed, turn_openai_checkpoint_schema_version,
}
use cld_gateway.Conversation.Disk.{Io, pure, ◌>>=◌, ◌>>◌, now_unix_seconds}
use cld_gateway.Conversation.Branches.{
  load_branch, store_branch_unlocked, append_ledger_event_unlocked,
  write_sparse_checkpoint_unlocked,
}

-- The order of the key (canonical_message_count, created_at_unix_seconds).
abbrev pub turn_le : TurnOpenAiCheckpoint → TurnOpenAiCheckpoint → Bool
turn_le a b =
    ltb a.canonical_message_count b.canonical_message_count
    || (a.canonical_message_count == b.canonical_message_count
        && leb a.created_at_unix_seconds b.created_at_unix_seconds)

abbrev pub same_prefix : ℕ → String → TurnOpenAiCheckpoint → Bool
same_prefix count hash c = c.canonical_message_count == count && str_eq c.canonical_prefix_hash hash

-- One checkpoint for each prefix: an old one is dropped, the new one added, and all are sorted.
unfoldable pub put_turn_checkpoint :
    ℕ → String → TurnOpenAiCheckpoint → List TurnOpenAiCheckpoint → List TurnOpenAiCheckpoint
put_turn_checkpoint count hash c cs =
    sort_by turn_le (filter (λ x. not (same_prefix count hash x)) cs ++ c ∷ [])

abbrev pub turn_checkpoint :
    CommitTurnParams → ℕ → String → String → ℕ → String → TurnOpenAiCheckpoint
turn_checkpoint p now response_id fingerprint count hash = record {
  schema_version = turn_openai_checkpoint_schema_version;
  turn_id = p.turn_id;
  canonical_message_count = count;
  canonical_prefix_hash = hash;
  response_id = response_id;
  previous_response_id = p.previous_response_id;
  provider_model_fingerprint = fingerprint;
  request_compatibility_fingerprint = p.request_compatibility_fingerprint;
  provider_input_tokens = p.provider_input_tokens;
  created_at_unix_seconds = now;
}

-- The innermost `if let`: the count and the hash of the prefix.
abbrev pub with_turn_checkpoint :
    CommitTurnParams
    → ℕ
    → String
    → String
    → Option ℕ
    → Option String
    → BranchMetadata
    → BranchMetadata
with_turn_checkpoint p now response_id fingerprint (some count) (some hash) b = record b {
  turn_openai_checkpoints =
      put_turn_checkpoint count hash (turn_checkpoint p now response_id fingerprint count hash)
        b.turn_openai_checkpoints;
}
with_turn_checkpoint p now response_id fingerprint (some count) none b = b
with_turn_checkpoint p now response_id fingerprint none hash b = b

abbrev pub openai_checkpoint_of : CommitTurnParams → String → String → OpenAiCheckpoint
openai_checkpoint_of p response_id fingerprint = record {
  response_id = response_id;
  previous_response_id = p.previous_response_id;
  provider_model_fingerprint = fingerprint;
  request_compatibility_fingerprint = p.request_compatibility_fingerprint;
  provider_input_tokens = p.provider_input_tokens;
}

-- The `if let` on the response id and the model fingerprint.
abbrev pub with_checkpoint :
    CommitTurnParams → ℕ → Option String → Option String → BranchMetadata → BranchMetadata
with_checkpoint p now (some response_id) (some fingerprint) b =
    with_turn_checkpoint p now response_id fingerprint p.canonical_message_count
      p.canonical_prefix_hash
      (record b {
        current_checkpoint_id = some response_id;
        compaction_reset_pending = false;
        openai_checkpoint = some (openai_checkpoint_of p response_id fingerprint);
      })
with_checkpoint p now (some response_id) none b = b
with_checkpoint p now none fingerprint b = b

abbrev pub with_turn :
    CommitTurnParams → ℕ → ConversationTurnScope → BranchMetadata → BranchMetadata
with_turn p now main b =
    with_checkpoint p now p.provider_response_id p.provider_model_fingerprint
      (record b { last_main_turn_id = some p.turn_id })
with_turn p now side b = b

abbrev pub or_keep : Option Json → Option Json → Option Json
or_keep none old = old
or_keep (some new) old = some new

-- The branch after the commit.
unfoldable pub commit_branch : CommitTurnParams → ℕ → BranchMetadata → BranchMetadata
commit_branch p now b = with_turn p now p.turn_scope (record b {
  fingerprints = p.fingerprints;
  active_canonical_messages = or_keep p.active_canonical_messages b.active_canonical_messages;
  updated_at_unix_seconds = now;
})

abbrev pub commit_event_of :
    CommitTurnParams → ℕ → ConversationTurnScope → Option String → CanonicalLedgerEvent
commit_event_of p now main request =
    main_turn_committed p.turn_id p.provider_response_id request p.provider_output_items now
commit_event_of p now side request =
    side_turn_observed p.turn_id request p.provider_output_items now

-- The event of the commit, from the committed branch's fingerprints.
unfoldable pub commit_event : CommitTurnParams → ℕ → BranchMetadata → CanonicalLedgerEvent
commit_event p now b = commit_event_of p now p.turn_scope b.fingerprints.recent_message_tail_hash

unfoldable pub commit_turn_unlocked : String → String → CommitTurnParams → Io BranchMetadata
commit_turn_unlocked sid bid p = do
  loaded ← load_branch sid bid
  now ← now_unix_seconds
  let branch = commit_branch p now loaded
  append_ledger_event_unlocked sid bid (commit_event p now branch)
  store_branch_unlocked sid branch
  pure branch

abbrev pub offshoot_le : OffshootOpenAiCheckpoint → OffshootOpenAiCheckpoint → Bool
offshoot_le a b = leb a.created_at_unix_seconds b.created_at_unix_seconds

abbrev pub offshoot_checkpoint : CommitOffshootCheckpointParams → ℕ → OffshootOpenAiCheckpoint
offshoot_checkpoint p now = record {
  schema_version = turn_openai_checkpoint_schema_version;
  offshoot_identity = p.offshoot_identity;
  response_id = p.provider_response_id;
  previous_response_id = p.previous_response_id;
  provider_model_fingerprint = p.provider_model_fingerprint;
  request_compatibility_fingerprint = p.request_compatibility_fingerprint;
  provider_input_tokens = p.provider_input_tokens;
  created_at_unix_seconds = now;
}

unfoldable pub offshoot_branch :
    CommitOffshootCheckpointParams → ℕ → BranchMetadata → BranchMetadata
offshoot_branch p now b = record b {
  updated_at_unix_seconds = now;
  offshoot_openai_checkpoints = sort_by offshoot_le (
      filter (λ c. not (str_eq c.offshoot_identity p.offshoot_identity))
        b.offshoot_openai_checkpoints
      ++ offshoot_checkpoint p now ∷ []);
}

unfoldable pub commit_offshoot_openai_checkpoint_unlocked :
    String → String → CommitOffshootCheckpointParams → Io BranchMetadata
commit_offshoot_openai_checkpoint_unlocked sid bid p = do
  loaded ← load_branch sid bid
  now ← now_unix_seconds
  let branch = offshoot_branch p now loaded
  store_branch_unlocked sid branch
  pure branch

-- `active_canonical_messages.as_ref() != Some(&params.messages)`.
abbrev pub snapshot_changed : Option Json → Json → Bool
snapshot_changed none messages = true
snapshot_changed (some old) messages = elim (Json-discrete old messages) [
  | yes _ ↦ false
  | no _ ↦ true
]

unfoldable pub reconciled_branch : ReconcileSnapshotParams → ℕ → BranchMetadata → BranchMetadata
reconciled_branch p now b = record b {
  active_canonical_messages = some p.messages;
  fingerprints = p.fingerprints;
  updated_at_unix_seconds = now;
}

abbrev pub record_snapshot : String → String → ReconcileSnapshotParams → Bool → Io (Unit {0})
record_snapshot sid bid p true = do
  now ← now_unix_seconds
  append_ledger_event_unlocked sid bid
      (inbound_canonical_snapshot_reconciled p.fingerprints.branch_state_hash now)
record_snapshot sid bid p false = pure tt

unfoldable pub reconcile_branch_snapshot_unlocked :
    String → String → ReconcileSnapshotParams → Io BranchMetadata
reconcile_branch_snapshot_unlocked sid bid p = do
  loaded ← load_branch sid bid
  now ← now_unix_seconds
  let branch = reconciled_branch p now loaded
  record_snapshot sid bid p (snapshot_changed loaded.active_canonical_messages p.messages)
  store_branch_unlocked sid branch
  pure branch

unfoldable pub compacted_branch : BranchFingerprintSet → ℕ → BranchMetadata → BranchMetadata
compacted_branch fingerprints now b = record b {
  fingerprints = fingerprints;
  compaction_reset_pending = true;
  updated_at_unix_seconds = now;
}

unfoldable pub apply_compaction_unlocked :
    String → String → Option String → BranchFingerprintSet → Io BranchMetadata
apply_compaction_unlocked sid bid summary_hash fingerprints = do
  loaded ← load_branch sid bid
  now ← now_unix_seconds
  let branch = compacted_branch fingerprints now loaded
  append_ledger_event_unlocked sid bid (CanonicalLedgerEvent.compaction_applied summary_hash now)
  store_branch_unlocked sid branch
  write_sparse_checkpoint_unlocked sid branch SparseCheckpointKind.compaction_applied now
  pure branch

unfoldable pub invalidated_branch : ℕ → BranchMetadata → BranchMetadata
invalidated_branch now b = record b {
  current_checkpoint_id = none;
  openai_checkpoint = none;
  updated_at_unix_seconds = now;
}

unfoldable pub invalidate_openai_checkpoint_unlocked : String → String → Io BranchMetadata
invalidate_openai_checkpoint_unlocked sid bid = do
  loaded ← load_branch sid bid
  now ← now_unix_seconds
  let branch = invalidated_branch now loaded
  store_branch_unlocked sid branch
  pure branch

-- The newest checkpoint of a prefix.
unfoldable pub find_turn_openai_checkpoint :
    BranchMetadata → ℕ → String → Option TurnOpenAiCheckpoint
find_turn_openai_checkpoint b count hash =
    max_by (λ x y. leb x.created_at_unix_seconds y.created_at_unix_seconds)
      (filter (same_prefix count hash) b.turn_openai_checkpoints)
