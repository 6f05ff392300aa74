-- ===== src/Conversation/Turns/Snapshots.antt =====
-- The reconciliation of a branch with a snapshot as it runs, and what is loaded after it.
use cld_gateway.Base.{
  String, ◌≡◌, ◌≢◌, refl, true, false, Option, none, some, List, [], ◌∷◌, ◌++◌, ap,
}
use cld_gateway.Base.Result.{ok}
use cld_gateway.Conversation.Types.{
  BranchMetadata, ReconcileSnapshotParams, CanonicalLedgerEvent,
  inbound_canonical_snapshot_reconciled,
}
use cld_gateway.Json.{Json, Json-discrete}
use cld_gateway.Conversation.Disk.{World}
use cld_gateway.Conversation.Disk.Laws.{now_at, called, timed, now_unix_seconds_lem}
use cld_gateway.Conversation.Turns.{
  snapshot_changed, reconciled_branch, reconcile_branch_snapshot_unlocked,
}
use cld_gateway.Conversation.Turns.Effects.{
  Files, load_branch_lem, store_lem, stored, stored-Files, append_lem, appended, appended-Files,
}
use cld_gateway.Conversation.Turns.Others.{reconciled-Agrees, snapshot-Agrees, retimed-Agrees}
use cld_gateway.Conversation.Turns.Store.{Ready}

known_unchanged :
    (old : Option Json) (messages : Json)
    → old ≡ some messages
    → snapshot_changed old messages ≡ false
known_unchanged none messages e = cc
known_unchanged (some o) messages e = by_test (Json-discrete o messages)
  where
    by_test : (d : Dec (o ≡ messages)) → (elim d [ yes _ ↦ false | no _ ↦ true ]) ≡ false
    by_test (yes same) = refl
    by_test (no other) = absurd (other cc)

unknown_changed :
    (old : Option Json) (messages : Json)
    → old ≢ some messages
    → snapshot_changed old messages ≡ true
unknown_changed none messages n = refl
unknown_changed (some o) messages n = by_test (Json-discrete o messages)
  where
    by_test : (d : Dec (o ≡ messages)) → (elim d [ yes _ ↦ false | no _ ↦ true ]) ≡ true
    by_test (yes same) = absurd (n (ap some same))
    by_test (no other) = refl

module _ (sid bid : String) (b : BranchMetadata) (es : List CanonicalLedgerEvent) (w : World)
    (h : Ready sid bid b es w) (p : ReconcileSnapshotParams) where
  -- The branch with the snapshot's messages and fingerprints, at the first reading of the clock.
  abbrev pub reconciled : BranchMetadata
  reconciled = record b {
    active_canonical_messages = some p.messages;
    fingerprints = p.fingerprints;
    updated_at_unix_seconds = now_at w;
  }

  -- The event that records the snapshot, at the second reading of the clock.
  abbrev pub snapshot_event : CanonicalLedgerEvent
  snapshot_event =
      inbound_canonical_snapshot_reconciled p.fingerprints.branch_state_hash
        (now_at (timed (called w)))

  abbrev pub after_event : World
  after_event = appended sid bid snapshot_event (timed (timed (called w)))

  read-Files : Files sid bid b es (timed (called w))
  read-Files = record { branch = h.files.branch; ledger = h.files.ledger }

  read_again : Files sid bid b es (timed (timed (called w)))
  read_again = record { branch = h.files.branch; ledger = h.files.ledger }

  reconciled_id : reconciled.branch_id ≡ bid
  reconciled_id = h.named

  same_runs :
      snapshot_changed b.active_canonical_messages p.messages ≡ false
      → reconcile_branch_snapshot_unlocked sid bid p w
        ≡ (ok reconciled, stored sid reconciled (timed (called w)))
  unfolding reconcile_branch_snapshot_unlocked reconciled_branch
  same_runs same = rw (load_branch_lem sid bid w h.reliable h.files) (
      rw (now_unix_seconds_lem (called w))
        (rw same (rw (store_lem sid (timed (called w)) h.reliable reconciled))))

  changed_runs :
      snapshot_changed b.active_canonical_messages p.messages ≡ true
      → reconcile_branch_snapshot_unlocked sid bid p w
        ≡ (ok reconciled, stored sid reconciled after_event)
  unfolding reconcile_branch_snapshot_unlocked reconciled_branch
  changed_runs changed = rw (load_branch_lem sid bid w h.reliable h.files) (
      rw (now_unix_seconds_lem (called w)) (
        rw changed (
          rw (now_unix_seconds_lem (timed (called w))) (
            rw (append_lem sid (timed (timed (called w))) h.reliable bid snapshot_event)
              (rw (store_lem sid after_event h.reliable reconciled))))))

  -- In a world where no call of the file system fails, for a branch on disk that agrees with its
  -- ledger: if the branch holds the snapshot's messages, then the reconciliation returns the
  -- branch with the snapshot's messages and fingerprints and a new time, everything else as it
  -- was, and leaves it on disk, but for the time of the store, where it agrees with the same
  -- ledger, to which nothing was added.
  pub same_snapshot-Ready :
      b.active_canonical_messages ≡ some p.messages
      → ((reconcile_branch_snapshot_unlocked sid bid p w).0 ≡ ok reconciled)
        × Ready sid bid
            (record reconciled { updated_at_unix_seconds = now_at (timed (called w)) })
            es
            (reconcile_branch_snapshot_unlocked sid bid p w).1
  unfolding reconciled_branch
  same_snapshot-Ready known =
      let same = known_unchanged b.active_canonical_messages p.messages known in
      (
        ap (λ r. r.0) (same_runs same),
        rw (same_runs same) (record {
          reliable = h.reliable;
          files = stored-Files sid bid (timed (called w)) read-Files reconciled reconciled_id;
          named = reconciled_id;
          agrees = retimed-Agrees reconciled es (reconciled-Agrees b es h.agrees (now_at w) p) _;
        }),
      )

  -- In a world where no call of the file system fails, for a branch on disk that agrees with its
  -- ledger: if the branch does not hold the snapshot's messages, then the reconciliation returns
  -- the branch with the snapshot's messages and fingerprints and a new time, everything else as
  -- it was, and leaves it on disk, but for the time of the store, where it agrees with the ledger
  -- that is longer by the snapshot's event.
  pub changed_snapshot-Ready :
      b.active_canonical_messages ≢ some p.messages
      → ((reconcile_branch_snapshot_unlocked sid bid p w).0 ≡ ok reconciled)
        × Ready sid bid
            (record reconciled { updated_at_unix_seconds = now_at after_event })
            (es ++ snapshot_event ∷ [])
            (reconcile_branch_snapshot_unlocked sid bid p w).1
  unfolding reconciled_branch
  changed_snapshot-Ready unknown =
      let changed = unknown_changed b.active_canonical_messages p.messages unknown in
      (
        ap (λ r. r.0) (changed_runs changed),
        rw (changed_runs changed) (record {
          reliable = h.reliable;
          files =
              stored-Files sid bid after_event
                (appended-Files sid bid (timed (timed (called w))) read_again snapshot_event)
                reconciled reconciled_id;
          named = reconciled_id;
          agrees =
              retimed-Agrees reconciled _
                (snapshot-Agrees reconciled es (reconciled-Agrees b es h.agrees (now_at w) p)
                  (now_at w) _ _)
                _;
        }),
      )
