-- ===== src/Conversation/Selection.antt =====
-- `select_or_create_branch_unlocked` of old_rust/crates/gateway-state/src/conversation.rs: which
-- branch a request continues or forks.
pub mod Choice
use cld_gateway.Base.{
  String, Bool, false, Option, none, some, List, [], ◌∷◌, opt_eq, str_eq, filter, ◌&&◌, not,
}
use cld_gateway.Conversation.Types.{
  BranchFingerprintSet, BranchCheckpointRef, BranchMetadata, BranchCreateParams,
  BranchSelectionInput, BranchSelectionResult, BranchSelectionAction, created_initial,
  continued_existing, forked_from_ancestor, created_ambiguous, created_unmatched,
}
use cld_gateway.Conversation.Disk.{Io, pure, ◌>>=◌, ◌>>◌}
use cld_gateway.Conversation.Branches.{
  create_branch_unlocked, load_all_branches_for_selection_unlocked, store_branch_unlocked,
}

-- Equal, and both known.
unfoldable pub fingerprint_equal : Option String → Option String → Bool
fingerprint_equal none incoming = false
fingerprint_equal (some left) none = false
fingerprint_equal (some left) (some right) = str_eq left right

unfoldable pub exact_branch_match : BranchFingerprintSet → BranchFingerprintSet → Bool
unfolding fingerprint_equal
exact_branch_match existing incoming =
    fingerprint_equal existing.last_user_message_hash incoming.last_user_message_hash
    && fingerprint_equal existing.recent_message_tail_hash incoming.recent_message_tail_hash

unfoldable pub ancestor_branch_match : BranchFingerprintSet → BranchFingerprintSet → Bool
unfolding fingerprint_equal
ancestor_branch_match existing incoming =
    fingerprint_equal existing.last_user_message_hash incoming.last_user_message_hash
    && not (opt_eq existing.recent_message_tail_hash incoming.recent_message_tail_hash)

-- The parameters of a branch without an ancestor.
abbrev pub root_params : BranchSelectionInput → BranchCreateParams
root_params input = record {
  parent_branch_id = none;
  fork_ancestor_checkpoint = none;
  active_canonical_messages = input.active_canonical_messages;
  fingerprints = input.fingerprints;
}

abbrev pub fork_point : BranchMetadata → Option String → Option BranchCheckpointRef
fork_point ancestor none = none
fork_point ancestor (some id) = some (record { branch_id = ancestor.branch_id; checkpoint_id = id })

abbrev pub fork_params : BranchMetadata → BranchSelectionInput → BranchCreateParams
fork_params ancestor input = record {
  parent_branch_id = some ancestor.branch_id;
  fork_ancestor_checkpoint = fork_point ancestor ancestor.current_checkpoint_id;
  active_canonical_messages = ancestor.active_canonical_messages;
  fingerprints = input.fingerprints;
}

abbrev pub create_root :
    String → BranchSelectionInput → BranchSelectionAction → Io BranchSelectionResult
create_root sid input action = do
  branch ← create_branch_unlocked sid (root_params input)
  pure (record { branch = branch; action = action; matched_existing_branch = none })

abbrev pub continue_branch :
    String → BranchSelectionInput → BranchMetadata → Io BranchSelectionResult
continue_branch sid input previous = do
  let branch = record previous {
    active_canonical_messages = input.active_canonical_messages;
    fingerprints = input.fingerprints;
  }
  store_branch_unlocked sid branch
  pure (record {
    branch = branch;
    action = continued_existing;
    matched_existing_branch = some previous;
  })

-- By the branches that may be an ancestor.
abbrev pub select_ancestor :
    String → BranchSelectionInput → List BranchMetadata → Io BranchSelectionResult
select_ancestor sid input [] = create_root sid input created_unmatched
select_ancestor sid input (ancestor ∷ []) = do
  branch ← create_branch_unlocked sid (fork_params ancestor input)
  pure (record {
    branch = branch;
    action = forked_from_ancestor;
    matched_existing_branch = some ancestor;
  })
select_ancestor sid input (first ∷ second ∷ more) = create_root sid input created_ambiguous

-- By the branches that match exactly.
abbrev pub select_exact :
    String
    → BranchSelectionInput
    → List BranchMetadata
    → List BranchMetadata
    → Io BranchSelectionResult
select_exact sid input existing [] =
    select_ancestor sid input
      (filter (λ b. ancestor_branch_match b.fingerprints input.fingerprints) existing)
select_exact sid input existing (branch ∷ []) = continue_branch sid input branch
select_exact sid input existing (first ∷ second ∷ more) = create_root sid input created_ambiguous

abbrev pub select_among :
    String → BranchSelectionInput → List BranchMetadata → Io BranchSelectionResult
select_among sid input [] = create_root sid input created_initial
select_among sid input (branch ∷ more) =
    select_exact sid input (branch ∷ more)
      (filter (λ b. exact_branch_match b.fingerprints input.fingerprints) (branch ∷ more))

unfoldable pub select_or_create_branch_unlocked :
    String → BranchSelectionInput → Io BranchSelectionResult
select_or_create_branch_unlocked sid input = do
  existing ← load_all_branches_for_selection_unlocked sid
  select_among sid input existing
