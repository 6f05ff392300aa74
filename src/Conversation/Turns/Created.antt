-- ===== src/Conversation/Turns/Created.antt =====
-- The creation of a branch as it runs, in a session whose file is there. No file-system call fails.
use cld_gateway.Base.{
  ℕ, suc, String, ◌≡◌, refl, ap, none, List, [], ◌∷◌, ◌++◌, is_some, if◌then◌else◌, false,
}
use cld_gateway.Base.Result.{ok}
use cld_gateway.Conversation.Types.{
  BranchMetadata, BranchCreateParams, CanonicalLedgerEvent, ClaudeSessionMetadata,
  SparseCheckpointKind, branch_created, branch_schema_version,
}
use cld_gateway.Conversation.Disk.{
  World, holds, new_uuid, create_session_dir, write_session_json, session_at, branch_at,
  put_session_dir, put_branch_dir,
}
use cld_gateway.Conversation.Disk.Laws.{
  Reliable, now_at, called, timed, now_unix_seconds_lem, touch_lem, session_at-put, branch_at-put,
  create_branch_dir_lem, write_branch_json_lem,
}
use cld_gateway.Conversation.Ledger.{replay}
use cld_gateway.Conversation.Ledger.Agreement.{Agrees}
use cld_gateway.Conversation.Branches.{
  load_session, ensure_session_unlocked, create_branch_unlocked, write_session,
}
use cld_gateway.Conversation.Turns.Effects.{
  Files, append_lem, appended, checkpoint_lem, checkpointed, checkpointed-Files,
}
use cld_gateway.Conversation.Turns.Store.{Ready}

-- The branch that the parameters describe, with nothing committed.
abbrev pub created : BranchCreateParams → String → ℕ → BranchMetadata
created p bid now = record {
  schema_version = branch_schema_version;
  branch_id = bid;
  parent_branch_id = p.parent_branch_id;
  fork_ancestor_checkpoint = p.fork_ancestor_checkpoint;
  current_checkpoint_id = none;
  active_canonical_messages = p.active_canonical_messages;
  fingerprints = p.fingerprints;
  openai_checkpoint = none;
  turn_openai_checkpoints = [];
  offshoot_openai_checkpoints = [];
  compaction_reset_pending = false;
  last_main_turn_id = none;
  created_at_unix_seconds = now;
  updated_at_unix_seconds = now;
}

abbrev pub creation_event : BranchCreateParams → String → ℕ → CanonicalLedgerEvent
creation_event p bid now = branch_created bid p.parent_branch_id p.fork_ancestor_checkpoint now

created-Agrees :
    (p : BranchCreateParams) (bid : String) (now : ℕ)
    → Agrees (created p bid now) (creation_event p bid now ∷ [])
unfolding replay
created-Agrees p bid now = record {
  created = refl;
  matches = record { turn = refl; checkpoint = refl; reset = refl; current = tt };
}

-- The first event of a ledger.
first-Files :
    (sid bid : String) {b : BranchMetadata} (e : CanonicalLedgerEvent) (w : World)
    → (branch_at sid bid w).branch ≡ holds b
    → (branch_at sid bid w).ledger ≡ none
    → Files sid bid b (e ∷ []) (appended sid bid e w)
first-Files sid bid e w branch ledger = record {
  branch = rw branch_at-put (rw branch_at-put branch);
  ledger = rw branch_at-put (rw branch_at-put (rw ledger refl));
}

-- The world after a session's file is written.
abbrev relisted : String → ClaudeSessionMetadata → World → World
relisted sid m w = put_session_dir sid (record (session_at sid w) { session = holds m }) (called w)

session-relisted :
    (sid id : String) (m : ClaudeSessionMetadata) (w : World)
    → id ≡ sid
    → (session_at sid (relisted id m w)).session ≡ holds m
session-relisted sid id m w own = rw own (
    ap (λ d. d.session)
      (session_at-put sid (record (session_at sid w) { session = holds m }) (called w)))

-- The file of the session leaves the branches.
relisted-Files :
    (sid bid id : String) (m : ClaudeSessionMetadata) (w : World)
    → id ≡ sid
    → {b : BranchMetadata} {es : List CanonicalLedgerEvent} → Files sid bid b es w
    → Files sid bid b es (relisted id m w)
relisted-Files sid bid id m w own f =
    let same = session_at-put sid (record (session_at sid w) { session = holds m }) (called w) in
    record { branch = rw own (rw same f.branch); ledger = rw own (rw same f.ledger) }

module _ (sid : String) (m : ClaudeSessionMetadata) (w : World) (r : Reliable w)
    (known : (session_at sid w).session ≡ holds m) where
  abbrev opened : World
  opened = called (put_session_dir sid (session_at sid w) (called w))

  ensure_session_lem : ensure_session_unlocked sid w ≡ (ok m, opened)
  unfolding ensure_session_unlocked create_session_dir load_session
  ensure_session_lem = rw (touch_lem w r) (
      rw (session_at-put sid (session_at sid w) (called w)) (
        rw known (
          rw (touch_lem (put_session_dir sid (session_at sid w) (called w)) r)
            (rw (session_at-put sid (session_at sid w) (called w)) (rw known refl)))))

  module _ (p : BranchCreateParams) where
    abbrev pub new_id : String
    new_id = w.uuid w.uuids

    abbrev new_branch_kind : SparseCheckpointKind
    new_branch_kind =
        if is_some p.parent_branch_id
        then SparseCheckpointKind.branch_fork_created
        else SparseCheckpointKind.branch_created

    abbrev named_world : World
    named_world = called (record opened { uuids = suc w.uuids })

    abbrev made : World
    made = timed (put_branch_dir sid new_id (branch_at sid new_id named_world) named_world)

    abbrev written : World
    written =
        put_branch_dir sid new_id
          (record (branch_at sid new_id made) { branch = holds (created p new_id (now_at w)) })
          (called made)

    abbrev logged : World
    logged = appended sid new_id (creation_event p new_id (now_at w)) written

    abbrev kept : World
    kept = checkpointed sid (created p new_id (now_at w)) new_branch_kind (now_at w) logged

    -- The session's file lists the new branch last.
    abbrev pub with_new_branch : ClaudeSessionMetadata
    with_new_branch = record m {
      branch_ids = m.branch_ids ++ new_id ∷ [];
      updated_at_unix_seconds = now_at w;
    }

    abbrev listed : World
    listed = relisted m.claude_session_id with_new_branch kept

    create_runs : create_branch_unlocked sid p w ≡ (ok (created p new_id (now_at w)), listed)
    unfolding create_branch_unlocked new_uuid write_session write_session_json
    create_runs = rw ensure_session_lem (
        rw (create_branch_dir_lem sid new_id (record opened { uuids = suc w.uuids }) r) (
          rw
            (now_unix_seconds_lem
              (put_branch_dir sid new_id (branch_at sid new_id named_world) named_world))
            (rw (write_branch_json_lem sid new_id (created p new_id (now_at w)) made r) (
              rw (append_lem sid written r new_id (creation_event p new_id (now_at w))) (
                rw
                  (checkpoint_lem sid logged r (created p new_id (now_at w)) new_branch_kind
                    (now_at w))
                  (rw (touch_lem kept r) refl))))))

    module _ (own : m.claude_session_id ≡ sid)
        (fresh : (branch_at sid new_id w).ledger ≡ none) where
      not_logged : (branch_at sid new_id written).ledger ≡ none
      not_logged =
          rw branch_at-put
            (rw branch_at-put (rw (session_at-put sid (session_at sid w) (called w)) fresh))

      kept-Files :
          Files sid new_id
            (created p new_id (now_at w))
            (creation_event p new_id (now_at w) ∷ [])
            kept
      kept-Files =
          checkpointed-Files sid new_id (created p new_id (now_at w)) new_branch_kind (now_at w)
            logged refl
            (first-Files sid new_id (creation_event p new_id (now_at w)) written
              (rw branch_at-put refl) not_logged)

      -- In a world where no call of the file system fails, for a session whose file is there and
      -- has the session's id, where no ledger is stored under the next UUID: the creation of a
      -- branch returns the branch that the parameters describe, under this UUID and the time and
      -- with nothing committed; it is on disk, where it agrees with the ledger that holds only
      -- the event of its creation; and the session's file has the new time and lists the branch
      -- after the others.
      pub create-Ready :
          ((create_branch_unlocked sid p w).0 ≡ ok (created p new_id (now_at w)))
          × Ready sid new_id
              (created p new_id (now_at w))
              (creation_event p new_id (now_at w) ∷ [])
              (create_branch_unlocked sid p w).1
          × ((session_at sid (create_branch_unlocked sid p w).1).session ≡ holds with_new_branch)
      create-Ready = (
        ap (λ q. q.0) create_runs,
        rw create_runs (record {
          reliable = r;
          files = relisted-Files sid new_id m.claude_session_id with_new_branch kept own kept-Files;
          named = refl;
          agrees = created-Agrees p new_id (now_at w);
        }),
        rw create_runs (session-relisted sid m.claude_session_id with_new_branch kept own),
      )
