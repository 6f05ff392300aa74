-- ===== src/Conversation/Turns/Commit.antt =====
-- When a commit of a turn keeps a branch and its ledger in agreement.
use cld_gateway.Base.{ℕ, String, ◌≡◌, ◌↔◌, false, Option, none, some, List, [], ◌∷◌, ◌++◌, arith}
use cld_gateway.Conversation.Types.{
  BranchMetadata, CommitTurnParams, ConversationTurnScope, main, side, CanonicalLedgerEvent,
}
use cld_gateway.Conversation.Ledger.{
  Replay, start, replay, replay_event, replay-append, begins_with_created-append,
}
use cld_gateway.Conversation.Ledger.Agreement.{Matches, Agrees}
use cld_gateway.Conversation.Turns.{commit_branch, commit_event}

-- A main turn brings a checkpoint with its model's fingerprint, or the branch already has the
-- turn's response id, or none where the turn has none, and no reset pending.
abbrev pub Fits : ConversationTurnScope → Option String → Option String → BranchMetadata → Type 0
Fits side response fingerprint b = Unit
Fits main (some r) (some f) b = Unit
Fits main (some r) none b =
    (b.current_checkpoint_id ≡ some r) × (b.compaction_reset_pending ≡ false)
Fits main none f b = (b.current_checkpoint_id ≡ none) × (b.compaction_reset_pending ≡ false)

abbrev pub FitsBranch : CommitTurnParams → BranchMetadata → Type 0
FitsBranch p b = Fits p.turn_scope p.provider_response_id p.provider_model_fingerprint b

module _ (p : CommitTurnParams) (now : ℕ) (b : BranchMetadata) (r : Replay) (m : Matches b r) where
  commit-Matches :
      FitsBranch p b
      → Matches
          (commit_branch p now b)
          (replay_event r (commit_event p now (commit_branch p now b)))
  unfolding commit_branch commit_event
  commit-Matches f = ground arith

  commit-Fits :
      Matches (commit_branch p now b) (replay_event r (commit_event p now (commit_branch p now b)))
      → FitsBranch p b
  unfolding commit_branch commit_event
  commit-Fits c = ground arith

pub branch_id-commit_branch :
    (p : CommitTurnParams) (now : ℕ) (b : BranchMetadata)
    → (commit_branch p now b).branch_id ≡ b.branch_id
unfolding commit_branch
branch_id-commit_branch p now b = ground arith

-- For a branch that agrees with its ledger: the branch after a commit of a turn agrees with the
-- ledger that is longer by the turn's event exactly when the turn fits the branch. A side turn
-- fits, and so does a main turn with a response id and a model fingerprint; a main turn without
-- one of them fits if the branch's current checkpoint is the turn's response id (none, if it has
-- none) and no compaction reset is pending.
pub commit-Agrees_iff :
    (p : CommitTurnParams) (now : ℕ) (b : BranchMetadata) (es : List CanonicalLedgerEvent)
    → Agrees b es
    → Agrees (commit_branch p now b) (es ++ commit_event p now (commit_branch p now b) ∷ [])
      ↔ FitsBranch p b
commit-Agrees_iff p now b es a = (
  (λ c.
      commit-Fits p now b (replay start es) a.matches
        (rw (replay-append start es (commit_event p now (commit_branch p now b))) at c.matches)),
  (λ f. record {
    created = begins_with_created-append es _ a.created;
    matches = rw replay-append (commit-Matches p now b (replay start es) a.matches f);
  }),
)
