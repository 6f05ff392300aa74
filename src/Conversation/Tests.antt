-- ===== src/Conversation/Tests.antt =====
-- The conversation store's theorems at one session with one branch.
use cld_gateway.Base.{◌≢◌, ◌≡◌, ◌↔◌, refl, false, none, some, List, [], ◌∷◌, ◌++◌}
use cld_gateway.Base.Dict
use cld_gateway.Base.Result.{ok, err}
use cld_gateway.Conversation.Types.{
  ClaudeSessionMetadata, BranchSelectionInput, BranchSelectionResult, continued_existing,
  BranchMetadata, BranchFingerprintSet, CommitTurnParams, CommitOffshootCheckpointParams,
  BranchCreateParams, main, CanonicalLedgerEvent, branch_created, main_turn_committed, StateError,
  invariant, current_checkpoint_id_mismatch,
}
use cld_gateway.Conversation.Disk.{
  World, session_at, branch_at, FileOf, holds, absent, touch, now_unix_seconds, create_session_dir,
  write_branch_json,
}
use cld_gateway.Conversation.Disk.Laws.{now_at, Reliable}
use cld_gateway.Conversation.Ledger.{validate_branch_against_ledger, replay}
use cld_gateway.Conversation.Ledger.Agreement.{Agrees, validate_iff}
use cld_gateway.Conversation.Branches.{rebuild_branch_from_disk, create_branch_unlocked}
use cld_gateway.Conversation.Turns.Created.{created, creation_event, create-Ready}
use cld_gateway.Conversation.Branches.{
  load_all_branches_for_selection_unlocked, ensure_session_unlocked, load_session, load_branch,
  load_branch_ledger_events, collect_lines, collect_branches, store_branch_unlocked,
}
use cld_gateway.Conversation.Ledger.{check_branch}
use cld_gateway.Conversation.Selection.{
  select_or_create_branch_unlocked, exact_branch_match, fingerprint_equal,
}
use cld_gateway.Conversation.Selection.Choice.{Chosen, select-Chosen}
use cld_gateway.Conversation.Turns.{reconcile_branch_snapshot_unlocked}
use cld_gateway.Conversation.Turns.Snapshots.{
  reconciled, snapshot_event, after_event, same_snapshot-Ready, changed_snapshot-Ready,
}
use cld_gateway.Conversation.Disk.Laws.{called, timed}
use cld_gateway.Conversation.Types.{ReconcileSnapshotParams}
use cld_gateway.Json.{null}
use cld_gateway.Conversation.Turns.{
  commit_branch, commit_event, commit_turn_unlocked, turn_checkpoint, find_turn_openai_checkpoint,
  invalidated_branch, invalidate_openai_checkpoint_unlocked,
  commit_offshoot_openai_checkpoint_unlocked, compacted_branch, apply_compaction_unlocked,
}
use cld_gateway.Conversation.Turns.Commit.{FitsBranch, commit-Agrees_iff}
use cld_gateway.Conversation.Turns.Store.{
  Ready, commit_turn-Ready, commit_turn_refused, Ready-rebuild, recommitted,
}
use cld_gateway.Conversation.Turns.Reload.{
  second_time, new_offshoot, with_offshoots, invalidate_then_refused, offshoot-Ready,
  compaction-Ready, before_store,
}
use cld_gateway.Conversation.Turns.Offshoots.{Replaced}
use cld_gateway.Conversation.Types.{OffshootOpenAiCheckpoint}
use cld_gateway.Conversation.Turns.Checkpoints.{find-commit_branch}

abbrev prints : BranchFingerprintSet
prints = record {
  recent_message_tail_hash = some "tail";
  last_user_message_hash = some "user";
  compaction_summary_hash = none;
  branch_state_hash = some "state";
}

-- A branch whose last main turn is `t1`, with the response `r1`.
abbrev branch_one : BranchMetadata
branch_one = record {
  schema_version = 1;
  branch_id = "b";
  parent_branch_id = none;
  fork_ancestor_checkpoint = none;
  current_checkpoint_id = some "r1";
  active_canonical_messages = none;
  fingerprints = prints;
  openai_checkpoint = some (record {
    response_id = "r1";
    previous_response_id = none;
    provider_model_fingerprint = "m";
    request_compatibility_fingerprint = none;
    provider_input_tokens = none;
  });
  turn_openai_checkpoints = [];
  offshoot_openai_checkpoints = [];
  compaction_reset_pending = false;
  last_main_turn_id = some "t1";
  created_at_unix_seconds = 1;
  updated_at_unix_seconds = 2;
}

abbrev ledger_one : List CanonicalLedgerEvent
ledger_one =
    branch_created "b" none none 1 ∷ main_turn_committed "t1" (some "r1") (some "tail") [] 2 ∷ []

abbrev world_with : BranchMetadata → FileOf ClaudeSessionMetadata → World
world_with b file = record {
  sessions =
      (
        "s",
        record {
          session = file;
          branches =
              (
                "b",
                record {
                  branch = holds b;
                  ledger = some (
                      some (branch_created "b" none none 1)
                      ∷ some (main_turn_committed "t1" (some "r1") (some "tail") [] 2)
                      ∷ []);
                  checkpoints = [];
                },
              )
              ∷ [];
        },
      )
      ∷ [];
  quarantined = [];
  clock = λ n. 100;
  clock_reads = 0;
  uuid = λ n. "u";
  uuids = 0;
  faults = λ n. false;
  calls = 0;
}

abbrev world_one : World
world_one = world_with branch_one absent

branch_one-Agrees : Agrees branch_one ledger_one
unfolding replay
branch_one-Agrees = record {
  created = refl;
  matches = record { turn = refl; checkpoint = refl; reset = refl; current = refl };
}

world_one-Ready : Ready "s" "b" branch_one ledger_one world_one
unfolding Dict.get
world_one-Ready = record {
  reliable = λ n. refl;
  files = record { branch = refl; ledger = refl };
  named = refl;
  agrees = branch_one-Agrees;
}

-- A main turn `t2` with a response `r2`.
abbrev turn_two : CommitTurnParams
turn_two = record {
  turn_scope = main;
  turn_id = "t2";
  fingerprints = prints;
  active_canonical_messages = none;
  provider_response_id = some "r2";
  previous_response_id = some "r1";
  provider_model_fingerprint = some "m";
  request_compatibility_fingerprint = none;
  provider_input_tokens = none;
  canonical_message_count = some 4;
  canonical_prefix_hash = some "prefix";
  provider_output_items = [];
}

-- A main turn whose response brought no id.
abbrev turn_without_id : CommitTurnParams
turn_without_id = record turn_two { provider_response_id = none }

abbrev offshoot : CommitOffshootCheckpointParams
offshoot = record {
  offshoot_identity = "side";
  provider_response_id = "r3";
  previous_response_id = none;
  provider_model_fingerprint = "m";
  request_compatibility_fingerprint = none;
  provider_input_tokens = none;
}

abbrev creation : BranchCreateParams
creation = record {
  parent_branch_id = none;
  fork_ancestor_checkpoint = none;
  active_canonical_messages = none;
  fingerprints = prints;
}

without_id_misfits : ¬ FitsBranch turn_without_id branch_one
without_id_misfits f = cc f.0

validate_iff_example :
    (validate_branch_against_ledger branch_one ledger_one ≡ ok tt) ↔ Agrees branch_one ledger_one
validate_iff_example = validate_iff branch_one ledger_one

commit-Agrees_iff_example :
    Agrees
      (commit_branch turn_two 3 branch_one)
      (ledger_one ++ commit_event turn_two 3 (commit_branch turn_two 3 branch_one) ∷ [])
    ↔ FitsBranch turn_two branch_one
commit-Agrees_iff_example = commit-Agrees_iff turn_two 3 branch_one ledger_one branch_one-Agrees

commit_turn-Ready_example :
    ((commit_turn_unlocked "s" "b" turn_two world_one).0
      ≡ ok (commit_branch turn_two (now_at world_one) branch_one))
    × Ready "s" "b"
        (recommitted "s" "b" branch_one ledger_one world_one world_one-Ready turn_two)
        (ledger_one
          ++ commit_event turn_two
              (now_at world_one)
              (commit_branch turn_two (now_at world_one) branch_one)
            ∷ [])
        (commit_turn_unlocked "s" "b" turn_two world_one).1
commit_turn-Ready_example =
    commit_turn-Ready "s" "b" branch_one ledger_one world_one world_one-Ready turn_two tt

commit_turn_refused_example :
    (e : StateError) × ((rebuild_branch_from_disk "s" "b"
        (commit_turn_unlocked "s" "b" turn_without_id world_one).1).0
      ≡ err e)
commit_turn_refused_example =
    commit_turn_refused "s" "b" branch_one ledger_one world_one world_one-Ready turn_without_id
      without_id_misfits

Ready-rebuild_example : (rebuild_branch_from_disk "s" "b" world_one).0 ≡ ok branch_one
Ready-rebuild_example = Ready-rebuild world_one-Ready

invalidate_then_refused_example :
    ((invalidate_openai_checkpoint_unlocked "s" "b" world_one).0
      ≡ ok (invalidated_branch (now_at world_one) branch_one))
    × ((rebuild_branch_from_disk "s" "b"
          (invalidate_openai_checkpoint_unlocked "s" "b" world_one).1).0
        ≡ err (invariant (current_checkpoint_id_mismatch none (some "r1"))))
invalidate_then_refused_example =
    invalidate_then_refused "s" "b" branch_one ledger_one world_one world_one-Ready refl

offshoot-Ready_example :
    (cs : List OffshootOpenAiCheckpoint) × Replaced "side"
      (new_offshoot "s" "b" branch_one ledger_one world_one world_one-Ready offshoot)
      []
      cs
    × ((commit_offshoot_openai_checkpoint_unlocked "s" "b" offshoot world_one).0
        ≡ ok (
            with_offshoots "s" "b" branch_one ledger_one world_one world_one-Ready cs
              (now_at world_one)))
    × Ready "s" "b"
        (with_offshoots "s" "b" branch_one ledger_one world_one world_one-Ready cs
          (second_time "s" "b" branch_one ledger_one world_one world_one-Ready))
        ledger_one
        (commit_offshoot_openai_checkpoint_unlocked "s" "b" offshoot world_one).1
offshoot-Ready_example =
    offshoot-Ready "s" "b" branch_one ledger_one world_one world_one-Ready offshoot

compaction-Ready_example :
    ((apply_compaction_unlocked "s" "b" (some "sum") prints world_one).0
      ≡ ok (compacted_branch prints (now_at world_one) branch_one))
    × Ready "s" "b"
        (record (compacted_branch prints (now_at world_one) branch_one) {
          updated_at_unix_seconds = now_at (
              before_store "s" "b" branch_one ledger_one world_one world_one-Ready
                (some "sum")
                prints);
        })
        (ledger_one ++ CanonicalLedgerEvent.compaction_applied (some "sum") (now_at world_one) ∷ [])
        (apply_compaction_unlocked "s" "b" (some "sum") prints world_one).1
compaction-Ready_example =
    compaction-Ready "s" "b" branch_one ledger_one world_one world_one-Ready (some "sum") prints

find-commit_branch_example :
    find_turn_openai_checkpoint (commit_branch turn_two 3 branch_one) 4 "prefix"
    ≡ some (turn_checkpoint turn_two 3 "r2" "m" 4 "prefix")
find-commit_branch_example = find-commit_branch turn_two 3 branch_one refl refl refl refl refl

-- A session that knows the branch, and a request with the branch's fingerprints.
abbrev world_two : World
world_two = world_with branch_one (
    holds (record {
      schema_version = 1;
      claude_session_id = "s";
      created_at_unix_seconds = 1;
      updated_at_unix_seconds = 1;
      branch_ids = "b" ∷ [];
    }))

abbrev same_prints : BranchSelectionInput
same_prints = record { active_canonical_messages = none; fingerprints = prints; turn_scope = main }

abbrev continued : BranchSelectionResult
continued = record {
  branch = branch_one;
  action = continued_existing;
  matched_existing_branch = some branch_one;
}

branch_continued : (select_or_create_branch_unlocked "s" same_prints world_two).0 ≡ ok continued
unfolding select_or_create_branch_unlocked load_all_branches_for_selection_unlocked
    ensure_session_unlocked load_session load_branch load_branch_ledger_events collect_lines
    collect_branches store_branch_unlocked rebuild_branch_from_disk validate_branch_against_ledger
    check_branch replay exact_branch_match fingerprint_equal touch now_unix_seconds
    create_session_dir write_branch_json Dict.get Dict.insert
branch_continued = refl

select-Chosen_example :
    (existing : List BranchMetadata) × ((load_all_branches_for_selection_unlocked "s" world_two).0
      ≡ ok existing)
    × Chosen same_prints continued continued_existing existing
select-Chosen_example = select-Chosen "s" same_prints world_two branch_continued

-- A snapshot of the messages, and the branch that has it already.
abbrev snapshot : ReconcileSnapshotParams
snapshot = record { messages = null; fingerprints = prints }

abbrev branch_with_messages : BranchMetadata
branch_with_messages = record branch_one { active_canonical_messages = some null }

abbrev world_with_messages : World
world_with_messages = world_with branch_with_messages absent

world_with_messages-Ready : Ready "s" "b" branch_with_messages ledger_one world_with_messages
unfolding Dict.get replay
world_with_messages-Ready = record {
  reliable = λ n. refl;
  files = record { branch = refl; ledger = refl };
  named = refl;
  agrees = record {
    created = refl;
    matches = record { turn = refl; checkpoint = refl; reset = refl; current = refl };
  };
}

no_messages : branch_one.active_canonical_messages ≢ some null
no_messages e = cc

same_snapshot-Ready_example :
    ((reconcile_branch_snapshot_unlocked "s" "b" snapshot world_with_messages).0
      ≡ ok (
          reconciled "s" "b" branch_with_messages ledger_one world_with_messages
            world_with_messages-Ready snapshot))
    × Ready "s" "b"
        (record (reconciled "s" "b" branch_with_messages ledger_one world_with_messages
          world_with_messages-Ready snapshot) {
            updated_at_unix_seconds = now_at (timed (called world_with_messages));
          })
        ledger_one
        (reconcile_branch_snapshot_unlocked "s" "b" snapshot world_with_messages).1
same_snapshot-Ready_example =
    same_snapshot-Ready "s" "b" branch_with_messages ledger_one world_with_messages
      world_with_messages-Ready snapshot refl

changed_snapshot-Ready_example :
    ((reconcile_branch_snapshot_unlocked "s" "b" snapshot world_one).0
      ≡ ok (reconciled "s" "b" branch_one ledger_one world_one world_one-Ready snapshot))
    × Ready "s" "b"
        (record (reconciled "s" "b" branch_one ledger_one world_one world_one-Ready snapshot) {
          updated_at_unix_seconds =
              now_at (after_event "s" "b" branch_one ledger_one world_one world_one-Ready snapshot);
        })
        (ledger_one
          ++ snapshot_event "s" "b" branch_one ledger_one world_one world_one-Ready snapshot ∷ [])
        (reconcile_branch_snapshot_unlocked "s" "b" snapshot world_one).1
changed_snapshot-Ready_example =
    changed_snapshot-Ready "s" "b" branch_one ledger_one world_one world_one-Ready snapshot
      no_messages

-- A session whose file is there.
abbrev session_s : ClaudeSessionMetadata
session_s = record {
  schema_version = 1;
  claude_session_id = "s";
  created_at_unix_seconds = 1;
  updated_at_unix_seconds = 2;
  branch_ids = "b" ∷ [];
}

abbrev listed_world : World
listed_world = world_with branch_one (holds session_s)

listed_world-Reliable : Reliable listed_world
listed_world-Reliable n = refl

session_s_known : (session_at "s" listed_world).session ≡ holds session_s
unfolding Dict.get
session_s_known = refl

u_is_new : (branch_at "s" "u" listed_world).ledger ≡ none
unfolding Dict.get
u_is_new = refl

create-Ready_example :
    ((create_branch_unlocked "s" creation listed_world).0 ≡ ok (created creation "u" 100))
    × Ready "s" "u"
        (created creation "u" 100)
        (creation_event creation "u" 100 ∷ [])
        (create_branch_unlocked "s" creation listed_world).1
    × ((session_at "s" (create_branch_unlocked "s" creation listed_world).1).session
        ≡ holds (record session_s { branch_ids = "b" ∷ "u" ∷ []; updated_at_unix_seconds = 100 }))
create-Ready_example =
    create-Ready "s" session_s listed_world listed_world-Reliable session_s_known creation refl
      u_is_new
