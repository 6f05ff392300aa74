-- ===== src/Conversation/Turns/Store.antt =====
-- The operations on one branch as they run: what they return, and whether the branch that they
-- leave on disk is loaded again. No file-system call fails in these theorems.
use cld_gateway.Base.{String, ◌≡◌, refl, List, [], ◌∷◌, ◌++◌, ◌∙◌, ap, ◌⊎◌, inl, inr}
use cld_gateway.Base.Result.{Result, ok, err}
use cld_gateway.Conversation.Types.{
  BranchMetadata, CommitTurnParams, CanonicalLedgerEvent, StateError,
}
use cld_gateway.Conversation.Disk.{World}
use cld_gateway.Conversation.Disk.Laws.{Reliable, now_at, called, timed, now_unix_seconds_lem}
use cld_gateway.Conversation.Ledger.{validate_branch_against_ledger}
use cld_gateway.Conversation.Ledger.Agreement.{Agrees, validate_iff}
use cld_gateway.Conversation.Branches.{rebuild_branch_from_disk}
use cld_gateway.Conversation.Turns.{commit_branch, commit_event, commit_turn_unlocked}
use cld_gateway.Conversation.Turns.Effects.{
  Files, load_branch_lem, rebuild_valid, rebuild_invalid, append_lem, store_lem, appended, stored,
  appended-Files, stored-Files,
}
use cld_gateway.Conversation.Turns.Commit.{FitsBranch, commit-Agrees_iff, branch_id-commit_branch}
use cld_gateway.Conversation.Turns.Others.{retimed-Agrees}

-- A branch on disk under its own id, in a world whose file system works.
pub record Ready (sid bid : String) (b : BranchMetadata) (es : List CanonicalLedgerEvent)
    (w : World) : Type 0 where
  pub reliable : Reliable w
  pub files : Files sid bid b es w
  pub named : b.branch_id ≡ bid
  pub agrees : Agrees b es

result_cases : (r : Result StateError (Unit {0})) → (r ≡ ok tt) ⊎ ((e : StateError) × (r ≡ err e))
result_cases (ok t) = inl refl
result_cases (err e) = inr (e, refl)

validate_cases :
    (b : BranchMetadata) (es : List CanonicalLedgerEvent)
    → (validate_branch_against_ledger b es ≡ ok tt)
      ⊎ ((e : StateError) × (validate_branch_against_ledger b es ≡ err e))
validate_cases b es = result_cases (validate_branch_against_ledger b es)

module _ (sid bid : String) (b : BranchMetadata) (es : List CanonicalLedgerEvent) (w : World)
    (h : Ready sid bid b es w) where
  module _ (p : CommitTurnParams) where
    abbrev pub committed : BranchMetadata
    committed = commit_branch p (now_at w) b

    abbrev pub after_commit : World
    after_commit =
        stored sid committed
          (appended sid bid (commit_event p (now_at w) committed) (timed (called w)))

    commit_turn_runs : commit_turn_unlocked sid bid p w ≡ (ok committed, after_commit)
    unfolding commit_turn_unlocked
    commit_turn_runs = rw (load_branch_lem sid bid w h.reliable h.files) (
        rw (now_unix_seconds_lem (called w)) (
          rw (append_lem sid (timed (called w)) h.reliable bid _) (
            rw (
              store_lem sid
                (appended sid bid (commit_event p (now_at w) committed) (timed (called w)))
                h.reliable committed))))

    abbrev pub recommitted : BranchMetadata
    recommitted = record committed {
      updated_at_unix_seconds =
          now_at (appended sid bid (commit_event p (now_at w) committed) (timed (called w)));
    }

    commit_turn-Files :
        Files sid bid recommitted
          (es ++ commit_event p (now_at w) committed ∷ [])
          (commit_turn_unlocked sid bid p w).1
    commit_turn-Files = rw commit_turn_runs (
        stored-Files sid bid _
          (appended-Files sid bid (timed (called w))
            (record { branch = h.files.branch; ledger = h.files.ledger })
            (commit_event p (now_at w) committed))
          committed (branch_id-commit_branch p (now_at w) b ∙ h.named))

    commit_turn-Reliable : Reliable (commit_turn_unlocked sid bid p w).1
    commit_turn-Reliable = rw commit_turn_runs h.reliable

    -- In a world where no call of the file system fails, for a branch on disk that agrees with
    -- its ledger: a commit of a turn that fits the branch returns the committed branch, and
    -- leaves it on disk, but for the time of the store, where it agrees with the ledger that is
    -- longer by the turn's event.
    pub commit_turn-Ready :
        FitsBranch p b
        → ((commit_turn_unlocked sid bid p w).0 ≡ ok committed)
          × Ready sid bid recommitted
              (es ++ commit_event p (now_at w) committed ∷ [])
              (commit_turn_unlocked sid bid p w).1
    commit_turn-Ready fits = (
      ap (λ r. r.0) commit_turn_runs,
      record {
        reliable = commit_turn-Reliable;
        files = commit_turn-Files;
        named = branch_id-commit_branch p (now_at w) b ∙ h.named;
        agrees =
            retimed-Agrees committed _ ((commit-Agrees_iff p (now_at w) b es h.agrees).1 fits) _;
      },
    )

    -- In a world where no call of the file system fails, for a branch on disk that agrees with
    -- its ledger: after a commit of a turn that does not fit the branch, the load of the branch
    -- from disk fails.
    pub commit_turn_refused :
        ¬ FitsBranch p b
        → (e : StateError) × ((rebuild_branch_from_disk sid bid
              (commit_turn_unlocked sid bid p w).1).0
            ≡ err e)
    commit_turn_refused misfit = elim (validate_cases recommitted _) [
      | inl v ↦ absurd (
          misfit (
            (commit-Agrees_iff p (now_at w) b es h.agrees).0 (
              retimed-Agrees recommitted _ ((validate_iff recommitted _).0 v)
                committed.updated_at_unix_seconds)))
      | inr (e, v) ↦
          (e, ap (λ r. r.0) (rebuild_invalid sid bid _ commit_turn-Reliable commit_turn-Files v))
    ]

-- In a world where no call of the file system fails, for a branch on disk that agrees with its
-- ledger: the load from disk returns that branch.
pub Ready-rebuild :
    {sid bid : String} {b : BranchMetadata} {es : List CanonicalLedgerEvent} {w : World}
    → Ready sid bid b es w
    → (rebuild_branch_from_disk sid bid w).0 ≡ ok b
Ready-rebuild {sid} {bid} {b} {es} {w} h =
    ap (λ r. r.0) (rebuild_valid sid bid w h.reliable h.files ((validate_iff b es).1 h.agrees))
