-- ===== src/Conversation/Branches.antt =====
-- Sessions and branches of old_rust/crates/gateway-state/src/conversation.rs: the operations
-- without the lock that load a session and its branches, create a branch and store one.
use cld_gateway.Base.{
  String, false, Option, none, some, List, [], ◌∷◌, ◌++◌, is_some, if◌then◌else◌, ℕ,
}
use cld_gateway.Base.Result.{Result, ok, err}
use cld_gateway.Conversation.Types.{
  ClaudeSessionMetadata, BranchMetadata, BranchCreateParams, SparseCheckpoint, SparseCheckpointKind,
  CanonicalLedgerEvent, StateError, io, json, session_schema_version, branch_schema_version,
  sparse_checkpoint_schema_version,
}
use cld_gateway.Conversation.Disk.{
  Io, FileOf, absent, corrupt, holds, pure, lift, ◌>>=◌, ◌>>◌, touch, modify, parsed, session_at,
  branch_at, put_branch_dir, create_session_dir, create_branch_dir, write_session_json,
  write_branch_json, write_checkpoint_json, now_unix_seconds, new_uuid,
}
use cld_gateway.Conversation.Ledger.{validate_branch_against_ledger}

unfoldable pub load_session : String → Io ClaudeSessionMetadata
load_session sid = do touch; λ w. lift (parsed (session_at sid w).session) w

unfoldable pub load_branch : String → String → Io BranchMetadata
load_branch sid bid = do touch; λ w. lift (parsed (branch_at sid bid w).branch) w

unfoldable pub write_session : ClaudeSessionMetadata → Io (Unit {0})
write_session session = write_session_json session.claude_session_id session

abbrev pub new_session : String → ℕ → ClaudeSessionMetadata
new_session sid now = record {
  schema_version = session_schema_version;
  claude_session_id = sid;
  created_at_unix_seconds = now;
  updated_at_unix_seconds = now;
  branch_ids = [];
}

-- What follows the test `session_path.exists()`.
abbrev pub load_or_start : String → FileOf ClaudeSessionMetadata → Io ClaudeSessionMetadata
load_or_start sid absent = do
  now ← now_unix_seconds
  write_session_json sid (new_session sid now)
  pure (new_session sid now)
load_or_start sid corrupt = load_session sid
load_or_start sid (holds m) = load_session sid

unfoldable pub ensure_session_unlocked : String → Io ClaudeSessionMetadata
ensure_session_unlocked sid = do
  create_session_dir sid
  λ w. load_or_start sid (session_at sid w).session w

-- The lines of a ledger: all of them parse, or there is a JSON error.
unfoldable pub collect_lines :
    List (Option CanonicalLedgerEvent) → Result StateError (List CanonicalLedgerEvent)
collect_lines [] = ok []
collect_lines (none ∷ lines) = err json
collect_lines (some e ∷ lines) =
    let rest = collect_lines lines in elim rest [ ok es ↦ ok (e ∷ es) | err x ↦ err x ]

abbrev pub parsed_ledger :
    Option (List (Option CanonicalLedgerEvent)) → Result StateError (List CanonicalLedgerEvent)
parsed_ledger none = err io
parsed_ledger (some lines) = collect_lines lines

unfoldable pub load_branch_ledger_events : String → String → Io (List CanonicalLedgerEvent)
load_branch_ledger_events sid bid = do
  touch
  λ w. lift (parsed_ledger (branch_at sid bid w).ledger) w

unfoldable pub rebuild_branch_from_disk : String → String → Io BranchMetadata
rebuild_branch_from_disk sid bid = do
  branch ← load_branch sid bid
  events ← load_branch_ledger_events sid bid
  lift (validate_branch_against_ledger branch events)
  pure branch

-- `branch_ids.iter().map(load).collect()`: the first error ends the loop.
unfoldable pub collect_branches :
    (String → Io BranchMetadata) → List String → Io (List BranchMetadata)
collect_branches load [] = pure []
collect_branches load (bid ∷ bids) = do
  branch ← load bid
  rest ← collect_branches load bids
  pure (branch ∷ rest)

unfoldable pub load_all_branches : String → Io (List BranchMetadata)
load_all_branches sid = do
  session ← ensure_session_unlocked sid
  collect_branches (load_branch sid) session.branch_ids

unfoldable pub load_all_branches_for_selection_unlocked : String → Io (List BranchMetadata)
load_all_branches_for_selection_unlocked sid = do
  session ← ensure_session_unlocked sid
  collect_branches (rebuild_branch_from_disk sid) session.branch_ids

abbrev pub lines_of :
    Option (List (Option CanonicalLedgerEvent)) → List (Option CanonicalLedgerEvent)
lines_of none = []
lines_of (some lines) = lines

-- The append creates the file where there is none. A failing append writes nothing.
unfoldable pub append_ledger_event_unlocked : String → String → CanonicalLedgerEvent → Io (Unit {0})
append_ledger_event_unlocked sid bid event = do
  create_branch_dir sid bid
  touch
  modify (λ w.
      let d = branch_at sid bid w in
      put_branch_dir sid bid (record d { ledger = some (lines_of d.ledger ++ some event ∷ []) }) w)

abbrev pub sparse_checkpoint : BranchMetadata → SparseCheckpointKind → ℕ → SparseCheckpoint
sparse_checkpoint b kind now = record {
  schema_version = sparse_checkpoint_schema_version;
  checkpoint_kind = kind;
  branch_id = b.branch_id;
  current_checkpoint_id = b.current_checkpoint_id;
  parent_branch_id = b.parent_branch_id;
  fork_ancestor_checkpoint = b.fork_ancestor_checkpoint;
  active_canonical_messages = b.active_canonical_messages;
  fingerprints = b.fingerprints;
  compaction_reset_pending = b.compaction_reset_pending;
  last_main_turn_id = b.last_main_turn_id;
  created_at_unix_seconds = now;
}

-- The UUID goes into the file's name, which makes the file a new one.
unfoldable pub write_sparse_checkpoint_unlocked :
    String → BranchMetadata → SparseCheckpointKind → ℕ → Io (Unit {0})
write_sparse_checkpoint_unlocked sid b kind now = do
  name ← new_uuid
  write_checkpoint_json sid b.branch_id (sparse_checkpoint b kind now)

abbrev pub new_branch : BranchCreateParams → String → ℕ → BranchMetadata
new_branch params branch_id now = record {
  schema_version = branch_schema_version;
  branch_id = branch_id;
  parent_branch_id = params.parent_branch_id;
  fork_ancestor_checkpoint = params.fork_ancestor_checkpoint;
  current_checkpoint_id = none;
  active_canonical_messages = params.active_canonical_messages;
  fingerprints = params.fingerprints;
  openai_checkpoint = none;
  turn_openai_checkpoints = [];
  offshoot_openai_checkpoints = [];
  compaction_reset_pending = false;
  last_main_turn_id = none;
  created_at_unix_seconds = now;
  updated_at_unix_seconds = now;
}

abbrev pub created_event : BranchCreateParams → String → ℕ → CanonicalLedgerEvent
created_event params branch_id now =
    CanonicalLedgerEvent.branch_created branch_id params.parent_branch_id
      params.fork_ancestor_checkpoint now

unfoldable pub create_branch_unlocked : String → BranchCreateParams → Io BranchMetadata
create_branch_unlocked sid params = do
  session ← ensure_session_unlocked sid
  branch_id ← new_uuid
  create_branch_dir sid branch_id
  now ← now_unix_seconds
  write_branch_json sid branch_id (new_branch params branch_id now)
  append_ledger_event_unlocked sid branch_id (created_event params branch_id now)
  write_sparse_checkpoint_unlocked sid (new_branch params branch_id now)
      (if is_some params.parent_branch_id
        then SparseCheckpointKind.branch_fork_created
        else SparseCheckpointKind.branch_created)
      now
  write_session (record session {
    branch_ids = session.branch_ids ++ branch_id ∷ [];
    updated_at_unix_seconds = now;
  })
  pure (new_branch params branch_id now)

unfoldable pub store_branch_unlocked : String → BranchMetadata → Io (Unit {0})
store_branch_unlocked sid branch = do
  now ← now_unix_seconds
  write_branch_json sid branch.branch_id (record branch { updated_at_unix_seconds = now })
