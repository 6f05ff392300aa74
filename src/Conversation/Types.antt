-- ===== src/Conversation/Types.antt =====
-- The data of old_rust/crates/gateway-state/src/conversation.rs: session and branch metadata,
-- ledger events, the parameters of the store's operations, and lib.rs's `StateError`.
use cld_gateway.Base.{ℕ, String, Bool, Option, List}
use cld_gateway.Base.Int.{ℤ}
use cld_gateway.Json.{Json}

abbrev pub session_schema_version : ℕ
session_schema_version = 1

abbrev pub branch_schema_version : ℕ
branch_schema_version = 1

abbrev pub sparse_checkpoint_schema_version : ℕ
sparse_checkpoint_schema_version = 1

abbrev pub turn_openai_checkpoint_schema_version : ℕ
turn_openai_checkpoint_schema_version = 1

pub record ClaudeSessionMetadata : Type 0 where
  pub schema_version : ℕ
  pub claude_session_id : String
  pub created_at_unix_seconds : ℕ
  pub updated_at_unix_seconds : ℕ
  pub branch_ids : List String

pub record BranchFingerprintSet : Type 0 where
  pub recent_message_tail_hash : Option String
  pub last_user_message_hash : Option String
  pub compaction_summary_hash : Option String
  pub branch_state_hash : Option String

pub record OpenAiCheckpoint : Type 0 where
  pub response_id : String
  pub previous_response_id : Option String
  pub provider_model_fingerprint : String
  pub request_compatibility_fingerprint : Option String
  pub provider_input_tokens : Option ℤ

pub record TurnOpenAiCheckpoint : Type 0 where
  pub schema_version : ℕ
  pub turn_id : String
  pub canonical_message_count : ℕ
  pub canonical_prefix_hash : String
  pub response_id : String
  pub previous_response_id : Option String
  pub provider_model_fingerprint : String
  pub request_compatibility_fingerprint : Option String
  pub provider_input_tokens : Option ℤ
  pub created_at_unix_seconds : ℕ

pub record OffshootOpenAiCheckpoint : Type 0 where
  pub schema_version : ℕ
  pub offshoot_identity : String
  pub response_id : String
  pub previous_response_id : Option String
  pub provider_model_fingerprint : String
  pub request_compatibility_fingerprint : Option String
  pub provider_input_tokens : Option ℤ
  pub created_at_unix_seconds : ℕ

pub record BranchCheckpointRef : Type 0 where
  pub branch_id : String
  pub checkpoint_id : String

pub record BranchMetadata : Type 0 where
  pub schema_version : ℕ
  pub branch_id : String
  pub parent_branch_id : Option String
  pub fork_ancestor_checkpoint : Option BranchCheckpointRef
  pub current_checkpoint_id : Option String
  pub active_canonical_messages : Option Json
  pub fingerprints : BranchFingerprintSet
  pub openai_checkpoint : Option OpenAiCheckpoint
  pub turn_openai_checkpoints : List TurnOpenAiCheckpoint
  pub offshoot_openai_checkpoints : List OffshootOpenAiCheckpoint
  pub compaction_reset_pending : Bool
  pub last_main_turn_id : Option String
  pub created_at_unix_seconds : ℕ
  pub updated_at_unix_seconds : ℕ

pub record BranchCreateParams : Type 0 where
  pub parent_branch_id : Option String
  pub fork_ancestor_checkpoint : Option BranchCheckpointRef
  pub active_canonical_messages : Option Json
  pub fingerprints : BranchFingerprintSet

pub data ConversationTurnScope : Type 0 where
  main side : ConversationTurnScope

pub record BranchSelectionInput : Type 0 where
  pub active_canonical_messages : Option Json
  pub fingerprints : BranchFingerprintSet
  pub turn_scope : ConversationTurnScope

pub data BranchSelectionAction : Type 0 where
  created_initial continued_existing forked_from_ancestor : BranchSelectionAction
  created_ambiguous created_unmatched : BranchSelectionAction

pub record BranchSelectionResult : Type 0 where
  pub branch : BranchMetadata
  pub action : BranchSelectionAction
  pub matched_existing_branch : Option BranchMetadata

pub record CommitTurnParams : Type 0 where
  pub turn_scope : ConversationTurnScope
  pub turn_id : String
  pub fingerprints : BranchFingerprintSet
  pub active_canonical_messages : Option Json
  pub provider_response_id : Option String
  pub previous_response_id : Option String
  pub provider_model_fingerprint : Option String
  pub request_compatibility_fingerprint : Option String
  pub provider_input_tokens : Option ℤ
  pub canonical_message_count : Option ℕ
  pub canonical_prefix_hash : Option String
  pub provider_output_items : List Json

pub record CommitOffshootCheckpointParams : Type 0 where
  pub offshoot_identity : String
  pub provider_response_id : String
  pub previous_response_id : Option String
  pub provider_model_fingerprint : String
  pub request_compatibility_fingerprint : Option String
  pub provider_input_tokens : Option ℤ

pub record ReconcileSnapshotParams : Type 0 where
  pub messages : Json
  pub fingerprints : BranchFingerprintSet

pub data SparseCheckpointKind : Type 0 where
  branch_created branch_fork_created compaction_applied : SparseCheckpointKind

pub record SparseCheckpoint : Type 0 where
  pub schema_version : ℕ
  pub checkpoint_kind : SparseCheckpointKind
  pub branch_id : String
  pub current_checkpoint_id : Option String
  pub parent_branch_id : Option String
  pub fork_ancestor_checkpoint : Option BranchCheckpointRef
  pub active_canonical_messages : Option Json
  pub fingerprints : BranchFingerprintSet
  pub compaction_reset_pending : Bool
  pub last_main_turn_id : Option String
  pub created_at_unix_seconds : ℕ

pub data CanonicalLedgerEvent : Type 0 where
  -- branch_id, parent_branch_id, fork_ancestor_checkpoint, created_at_unix_seconds
  branch_created : String → Option String → Option BranchCheckpointRef → ℕ → CanonicalLedgerEvent
  -- snapshot_hash, created_at_unix_seconds
  inbound_canonical_snapshot_reconciled : Option String → ℕ → CanonicalLedgerEvent
  -- turn_id, provider_response_id, request_fingerprint, provider_output_items, created_at
  main_turn_committed :
      String → Option String → Option String → List Json → ℕ → CanonicalLedgerEvent
  -- turn_id, request_fingerprint, provider_output_items, created_at_unix_seconds
  side_turn_observed : String → Option String → List Json → ℕ → CanonicalLedgerEvent
  -- summary_hash, created_at_unix_seconds
  compaction_applied : Option String → ℕ → CanonicalLedgerEvent

-- The texts of `StateError::Invariant`, one constructor for each message with its values.
pub data Invariant : Type 0 where
  missing_branch_created : Invariant
  last_main_turn_id_mismatch : Option String → Option String → Invariant
  current_checkpoint_id_mismatch : Option String → Option String → Invariant
  compaction_reset_mismatch : Bool → Bool → Invariant
  checkpoint_without_id : Invariant
  checkpoint_response_mismatch : String → Option String → Invariant

-- The failures of this file's operations; the source's `NoHomeDir` and `Sqlite` arise elsewhere.
pub data StateError : Type 0 where
  io json : StateError
  invariant : Invariant → StateError

pub data ConversationStateCorruptionPolicy : Type 0 where
  fail_closed quarantine_and_reset : ConversationStateCorruptionPolicy
