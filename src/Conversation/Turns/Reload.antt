-- ===== src/Conversation/Turns/Reload.antt =====
-- Offshoot commits, compactions and invalidations as they run, and what is loaded after them. No
-- file-system call fails in these theorems.
use cld_gateway.Base.{ℕ, String, ◌≡◌, Option, none, some, List, [], ◌∷◌, ◌++◌, ap}
use cld_gateway.Base.Result.{ok, err}
use cld_gateway.Conversation.Types.{
  BranchMetadata, BranchFingerprintSet, CommitOffshootCheckpointParams, CanonicalLedgerEvent,
  OffshootOpenAiCheckpoint, compaction_applied, invariant, current_checkpoint_id_mismatch,
  SparseCheckpointKind,
}
use cld_gateway.Conversation.Disk.{World}
use cld_gateway.Conversation.Disk.Laws.{now_at, called, timed, now_unix_seconds_lem}
use cld_gateway.Conversation.Branches.{rebuild_branch_from_disk}
use cld_gateway.Conversation.Turns.{
  offshoot_branch, commit_offshoot_openai_checkpoint_unlocked, invalidated_branch,
  invalidate_openai_checkpoint_unlocked, compacted_branch, apply_compaction_unlocked,
}
use cld_gateway.Conversation.Turns.Effects.{
  Files, load_branch_lem, rebuild_invalid, store_lem, stored, stored-Files, append_lem, appended,
  appended-Files, checkpoint_lem, checkpointed, checkpointed-Files,
}
use cld_gateway.Conversation.Turns.Others.{
  offshoot-Agrees, invalidated_invalid, retimed-Agrees, compacted-Agrees,
}
use cld_gateway.Conversation.Turns.Offshoots.{Replaced, sort_by-Replaced}
use cld_gateway.Conversation.Turns.Store.{Ready}

module _ (sid bid : String) (b : BranchMetadata) (es : List CanonicalLedgerEvent) (w : World)
    (h : Ready sid bid b es w) where
  -- The time that the store writes: the second reading of the clock.
  abbrev pub second_time : ℕ
  second_time = now_at (timed (called w))

  loaded-Files : Files sid bid b es (timed (called w))
  loaded-Files = record { branch = h.files.branch; ledger = h.files.ledger }

  invalidate_runs : invalidate_openai_checkpoint_unlocked sid bid w ≡ (
    ok (invalidated_branch (now_at w) b),
    stored sid (invalidated_branch (now_at w) b) (timed (called w)),
  )
  unfolding invalidate_openai_checkpoint_unlocked
  invalidate_runs = rw (load_branch_lem sid bid w h.reliable h.files) (
      rw (now_unix_seconds_lem (called w))
        (rw (store_lem sid (timed (called w)) h.reliable (invalidated_branch (now_at w) b))))

  -- In a world where no call of the file system fails, for a branch on disk that agrees with its
  -- ledger: if it has a current checkpoint, then the invalidation of the checkpoint succeeds, and
  -- the load of the branch from disk after it fails with the mismatch of the checkpoint's id.
  pub invalidate_then_refused :
      {id : String}
      → b.current_checkpoint_id ≡ some id
      → ((invalidate_openai_checkpoint_unlocked sid bid w).0 ≡ ok (invalidated_branch (now_at w) b))
        × ((rebuild_branch_from_disk sid bid (invalidate_openai_checkpoint_unlocked sid bid w).1).0
            ≡ err (invariant (current_checkpoint_id_mismatch none (some id))))
  unfolding invalidated_branch
  invalidate_then_refused has = (
    ap (λ r. r.0) invalidate_runs,
    rw invalidate_runs (
        ap (λ r. r.0)
          (rebuild_invalid sid bid _ h.reliable
            (stored-Files sid bid (timed (called w)) loaded-Files (invalidated_branch (now_at w) b)
              h.named)
            (invalidated_invalid b es h.agrees second_time has))),
  )

  offshoot_runs :
      (p : CommitOffshootCheckpointParams)
      → commit_offshoot_openai_checkpoint_unlocked sid bid p w ≡ (
        ok (offshoot_branch p (now_at w) b),
        stored sid (offshoot_branch p (now_at w) b) (timed (called w)),
      )
  unfolding commit_offshoot_openai_checkpoint_unlocked
  offshoot_runs p = rw (load_branch_lem sid bid w h.reliable h.files) (
      rw (now_unix_seconds_lem (called w))
        (rw (store_lem sid (timed (called w)) h.reliable (offshoot_branch p (now_at w) b))))

  -- The checkpoint that the parameters name, made at the first reading of the clock.
  abbrev pub new_offshoot : CommitOffshootCheckpointParams → OffshootOpenAiCheckpoint
  new_offshoot p = record {
    schema_version = 1;
    offshoot_identity = p.offshoot_identity;
    response_id = p.provider_response_id;
    previous_response_id = p.previous_response_id;
    provider_model_fingerprint = p.provider_model_fingerprint;
    request_compatibility_fingerprint = p.request_compatibility_fingerprint;
    provider_input_tokens = p.provider_input_tokens;
    created_at_unix_seconds = now_at w;
  }

  -- The branch with other offshoot checkpoints, at a time.
  abbrev pub with_offshoots : List OffshootOpenAiCheckpoint → ℕ → BranchMetadata
  with_offshoots cs time = record b {
    offshoot_openai_checkpoints = cs;
    updated_at_unix_seconds = time;
  }

  -- In a world where no call of the file system fails, for a branch on disk that agrees with its
  -- ledger: a commit of an offshoot's checkpoint returns the branch with new offshoot
  -- checkpoints, and leaves it on disk, but for the time of the store, where it agrees with the
  -- same ledger. The new checkpoints are, in the order of their creation, the checkpoint that the
  -- parameters describe and the old ones of other identities; nothing else of the branch changes
  -- but its time.
  pub offshoot-Ready :
      (p : CommitOffshootCheckpointParams)
      → (cs : List OffshootOpenAiCheckpoint) × Replaced p.offshoot_identity
          (new_offshoot p)
          b.offshoot_openai_checkpoints
          cs
        × ((commit_offshoot_openai_checkpoint_unlocked sid bid p w).0
            ≡ ok (with_offshoots cs (now_at w)))
        × Ready sid bid
            (with_offshoots cs second_time)
            es
            (commit_offshoot_openai_checkpoint_unlocked sid bid p w).1
  unfolding offshoot_branch
  offshoot-Ready p = (
    (offshoot_branch p (now_at w) b).offshoot_openai_checkpoints,
    sort_by-Replaced p.offshoot_identity (new_offshoot p) b.offshoot_openai_checkpoints,
    ap (λ r. r.0) (offshoot_runs p),
    rw (offshoot_runs p) (record {
      reliable = h.reliable;
      files =
          stored-Files sid bid (timed (called w)) loaded-Files (offshoot_branch p (now_at w) b)
            h.named;
      named = h.named;
      agrees = retimed-Agrees _ es (offshoot-Agrees b es h.agrees (now_at w) p) second_time;
    }),
  )

  module _ (summary : Option String) (fingerprints : BranchFingerprintSet) where
    abbrev pub compacted : BranchMetadata
    compacted = compacted_branch fingerprints (now_at w) b

    abbrev pub compaction_event : CanonicalLedgerEvent
    compaction_event = compaction_applied summary (now_at w)

    abbrev pub before_store : World
    before_store = appended sid bid compaction_event (timed (called w))

    compaction_runs : apply_compaction_unlocked sid bid summary fingerprints w ≡ (
      ok compacted,
      checkpointed sid compacted SparseCheckpointKind.compaction_applied
          (now_at w)
          (stored sid compacted before_store),
    )
    unfolding apply_compaction_unlocked
    compaction_runs = rw (load_branch_lem sid bid w h.reliable h.files) (
        rw (now_unix_seconds_lem (called w)) (
          rw (append_lem sid (timed (called w)) h.reliable bid compaction_event) (
            rw (store_lem sid before_store h.reliable compacted) (
              rw (
                checkpoint_lem sid (stored sid compacted before_store) h.reliable compacted
                  SparseCheckpointKind.compaction_applied (now_at w))))))

    compacted_named : compacted.branch_id ≡ bid
    unfolding compacted_branch
    compacted_named = h.named

    -- In a world where no call of the file system fails, for a branch on disk that agrees with
    -- its ledger: a compaction returns the compacted branch and leaves it on disk, but for the
    -- time of the store, where it agrees with the ledger that is longer by the compaction's
    -- event.
    pub compaction-Ready :
        ((apply_compaction_unlocked sid bid summary fingerprints w).0 ≡ ok compacted)
        × Ready sid bid
            (record compacted { updated_at_unix_seconds = now_at before_store })
            (es ++ compaction_event ∷ [])
            (apply_compaction_unlocked sid bid summary fingerprints w).1
    compaction-Ready = (
      ap (λ r. r.0) compaction_runs,
      rw compaction_runs (record {
        reliable = h.reliable;
        files = checkpointed-Files sid bid compacted _ _ _ compacted_named (
            stored-Files sid bid before_store
              (appended-Files sid bid (timed (called w)) loaded-Files compaction_event) compacted
              compacted_named);
        named = compacted_named;
        agrees =
            retimed-Agrees compacted _
              (compacted-Agrees b es h.agrees (now_at w) fingerprints summary (now_at w)) _;
      }),
    )
