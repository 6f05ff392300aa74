-- ===== src/Conversation/LockTests.antt =====
-- The theorems on the lock, the quarantine and the removal of old sessions, at small worlds.
use cld_gateway.Base.{
  ℕ, String, ◌≡◌, refl, false, true, none, some, [], ◌∷◌, All, ◌⊎◌, str_eq, if◌then◌else◌,
}
use cld_gateway.Base.Dict
use cld_gateway.Base.Int.{pos}
use cld_gateway.Base.Result.{ok, err}
use cld_gateway.Conversation.Types.{
  ClaudeSessionMetadata, BranchFingerprintSet, BranchSelectionInput, BranchSelectionResult,
  CommitTurnParams, main, json, io, quarantine_and_reset, fail_closed,
}
use cld_gateway.Conversation.Disk.{World, SessionDir, FileOf, corrupt, holds, touch}
use cld_gateway.Conversation.Branches.{load_session}
use cld_gateway.Conversation.Lock.{
  quarantine_session_unlocked, select_or_create_branch, commit_turn,
}
use cld_gateway.Conversation.Lock.Laws.{quarantine_lem, select_recovers}
use cld_gateway.Conversation.Cleanup.{
  session_ids, sweep, remove_session_dir, cleanup_sessions_older_than_unix_seconds, max_age_seconds,
}
use cld_gateway.Conversation.Cleanup.Reads.{is_old, is_readable, count_old}
use cld_gateway.Conversation.Cleanup.Laws.{cleanup_lem}
use cld_gateway.Conversation.Cleanup.Stuck.{commit_then_stuck}

abbrev session_of : String → ℕ → ClaudeSessionMetadata
session_of sid at = record {
  schema_version = 1;
  claude_session_id = sid;
  created_at_unix_seconds = 1;
  updated_at_unix_seconds = at;
  branch_ids = [];
}

abbrev dir_of : FileOf ClaudeSessionMetadata → SessionDir
dir_of f = record { session = f; branches = [] }

abbrev world_of : Dict.Dict SessionDir → World
world_of s = record {
  sessions = s;
  quarantined = [];
  clock = λ n. 300;
  clock_reads = 0;
  uuid = λ n. "u";
  uuids = 0;
  faults = λ n. false;
  calls = 0;
}

-- A session of the time 10 and one of the time 200.
abbrev two_sessions : World
two_sessions = world_of (
    ("old", dir_of (holds (session_of "old" 10)))
    ∷ ("new", dir_of (holds (session_of "new" 200)))
    ∷ [])

-- A session whose session.json does not parse.
abbrev corrupt_session : World
corrupt_session = world_of (("s", dir_of corrupt) ∷ [])

abbrev no_prints : BranchFingerprintSet
no_prints = record {
  recent_message_tail_hash = none;
  last_user_message_hash = none;
  compaction_summary_hash = none;
  branch_state_hash = none;
}

abbrev a_request : BranchSelectionInput
a_request = record { active_canonical_messages = none; fingerprints = no_prints; turn_scope = main }

abbrev a_turn : CommitTurnParams
a_turn = record {
  turn_scope = main;
  turn_id = "t";
  fingerprints = no_prints;
  active_canonical_messages = none;
  provider_response_id = none;
  previous_response_id = none;
  provider_model_fingerprint = none;
  request_compatibility_fingerprint = none;
  provider_input_tokens = none;
  canonical_message_count = none;
  canonical_prefix_hash = none;
  provider_output_items = [];
}

-- One session of the two is removed.
one_removed : (cleanup_sessions_older_than_unix_seconds (pos 100) two_sessions).0 ≡ ok 1
unfolding cleanup_sessions_older_than_unix_seconds touch sweep load_session remove_session_dir
    Dict.get Dict.remove
one_removed = refl

seven_days : max_age_seconds 7 ≡ some 604800
unfolding max_age_seconds
seven_days = refl

-- More seconds than an i64 holds.
too_many_days : max_age_seconds 200000000000000 ≡ none
unfolding max_age_seconds
too_many_days = refl

corrupt_found : Dict.get "s" corrupt_session.sessions ≡ some (dir_of corrupt)
unfolding Dict.get
corrupt_found = refl

unknown_session : Dict.get "other" corrupt_session.sessions ≡ none
unfolding Dict.get
unknown_session = refl

cleanup_lem_example :
    All (λ sid. is_readable two_sessions.sessions sid ≡ true) (session_ids two_sessions.sessions)
    × (1 ≡ count_old (pos 100) two_sessions.sessions (session_ids two_sessions.sessions))
    × ((sid : String)
        → Dict.get sid (cleanup_sessions_older_than_unix_seconds (pos 100) two_sessions).1.sessions
          ≡ (if is_old (pos 100) two_sessions.sessions sid
              then none
              else Dict.get sid two_sessions.sessions))
cleanup_lem_example = cleanup_lem (pos 100) two_sessions one_removed

quarantine_lem_example :
    ((quarantine_session_unlocked "s" json corrupt_session).0 ≡ ok tt)
    × ((quarantine_session_unlocked "s" json corrupt_session).1.quarantined
        ≡ record {
          claude_session_id = "s";
          seconds = 300;
          uuid = "u";
          moved = dir_of corrupt;
          metadata = holds (record {
            claude_session_id = "s";
            reason = json;
            quarantined_at_unix_seconds = 300;
          });
        }
          ∷ [])
    × ((k : String)
        → Dict.get k (quarantine_session_unlocked "s" json corrupt_session).1.sessions
          ≡ (if str_eq "s" k then none else Dict.get k corrupt_session.sessions))
    × ((quarantine_session_unlocked "s" json corrupt_session).1.faults ≡ corrupt_session.faults)
quarantine_lem_example =
    quarantine_lem "s" json (dir_of corrupt) corrupt_session (λ n. refl) corrupt_found

select_recovers_example :
    ((r : BranchSelectionResult) × ((select_or_create_branch quarantine_and_reset "s" a_request
          corrupt_session).0
        ≡ ok r))
    ⊎ ((select_or_create_branch quarantine_and_reset "s" a_request corrupt_session).0 ≡ err io)
select_recovers_example = select_recovers "s" a_request corrupt_session (λ n. refl)

commit_then_stuck_example : ¬ (
    (cleanup_sessions_older_than_unix_seconds
      (pos 100)
      (commit_turn fail_closed "other" "b" a_turn corrupt_session).1).0
    ≡ ok 0)
commit_then_stuck_example =
    commit_then_stuck "other" "b" a_turn corrupt_session (λ n. refl) fail_closed (pos 100) 0
      unknown_session
