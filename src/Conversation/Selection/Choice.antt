-- ===== src/Conversation/Selection/Choice.antt =====
-- What a selection that succeeds says of the branches that there were.
use cld_gateway.Base.{
  String, ◌≡◌, refl, ap, sym, subst, ◌∙◌, ◌⊎◌, none, some, List, [], ◌∷◌, filter, inl, inr,
}
use cld_gateway.Base.Result.{Result, ok, err}
use cld_gateway.Conversation.Types.{
  BranchMetadata, BranchCreateParams, BranchSelectionInput, BranchSelectionResult,
  BranchSelectionAction, created_initial, continued_existing, forked_from_ancestor,
  created_ambiguous, created_unmatched, StateError,
}
use cld_gateway.Conversation.Disk.{World, Io, continue, ◌>>=◌}
use cld_gateway.Conversation.Disk.{new_uuid, create_branch_dir, now_unix_seconds, write_branch_json}
use cld_gateway.Conversation.Branches.{
  create_branch_unlocked, store_branch_unlocked, ensure_session_unlocked,
  load_all_branches_for_selection_unlocked, new_branch, created_event, append_ledger_event_unlocked,
  write_sparse_checkpoint_unlocked, write_session,
}
use cld_gateway.Conversation.Selection.{
  exact_branch_match, ancestor_branch_match, create_root, continue_branch, select_ancestor,
  select_exact, select_among, root_params, fork_params, select_or_create_branch_unlocked,
}

-- A result of two steps comes from a result of the first.
module _ {A B : Type 0} where
  bind_ok :
      (m : Io A) (k : A → Io B) (w : World) {b : B}
      → ((m >>= k) w).0 ≡ ok b
      → (a : A) × (w' : World) × ((m w).0 ≡ ok a) × ((k a w').0 ≡ ok b)
  bind_ok m k w {b} h = from_first (m w) h
    where
      from_first :
          (p : Result StateError A × World)
          → (continue p.0 k p.1).0 ≡ ok b
          → (a : A) × (w' : World) × (p.0 ≡ ok a) × ((k a w').0 ≡ ok b)
      from_first (ok a, w') e = (a, w', refl, e)
      from_first (err x, w') e = cc

abbrev pub exact_matches : BranchSelectionInput → List BranchMetadata → List BranchMetadata
exact_matches input = filter (λ b. exact_branch_match b.fingerprints input.fingerprints)

abbrev pub ancestor_matches : BranchSelectionInput → List BranchMetadata → List BranchMetadata
ancestor_matches input = filter (λ b. ancestor_branch_match b.fingerprints input.fingerprints)

module _ (sid : String) (input : BranchSelectionInput) {r : BranchSelectionResult} where
  create_root_action :
      (action : BranchSelectionAction) (w : World)
      → (create_root sid input action w).0 ≡ ok r
      → (r.action ≡ action) × (r.matched_existing_branch ≡ none)
  create_root_action action w h =
      let (branch, w', made, e) = bind_ok (create_branch_unlocked sid (root_params input)) _ w h in
      (cc, cc)

  continue_action :
      (b : BranchMetadata) (w : World)
      → (continue_branch sid input b w).0 ≡ ok r
      → (r.action ≡ continued_existing)
        × (r.matched_existing_branch ≡ some b)
        × (r.branch.branch_id ≡ b.branch_id)
  continue_action b w h =
      let (u, w', made, e) = bind_ok (store_branch_unlocked sid _) _ w h in (cc, cc, cc)

ok_injective : {A : Type 0} {a b : A} → ◌≡◌ {A = Result StateError A} (ok a) (ok b) → a ≡ b
ok_injective h = cc

-- A created branch has the parent that it was asked for.
create_branch_parent :
    (sid : String) (params : BranchCreateParams) (w : World) {b : BranchMetadata}
    → (create_branch_unlocked sid params w).0 ≡ ok b
    → b.parent_branch_id ≡ params.parent_branch_id
unfolding create_branch_unlocked
create_branch_parent sid params w h =
    let (session, w1, _, e1) = bind_ok (ensure_session_unlocked sid) _ w h in
    let (id, w2, _, e2) = bind_ok new_uuid _ w1 e1 in
    let (u3, w3, _, e3) = bind_ok (create_branch_dir sid id) _ w2 e2 in
    let (now, w4, _, e4) = bind_ok now_unix_seconds _ w3 e3 in
    let (u5, w5, _, e5) = bind_ok (write_branch_json sid id (new_branch params id now)) _ w4 e4 in
    let (u6, w6, _, e6) =
      bind_ok (append_ledger_event_unlocked sid id (created_event params id now)) _ w5 e5 in
    let (u7, w7, _, e7) =
      bind_ok (write_sparse_checkpoint_unlocked sid (new_branch params id now) _ now) _ w6 e6 in
    let (u8, w8, _, e8) = bind_ok (write_session _) _ w7 e7 in
    ap (λ b. b.parent_branch_id) (sym (ok_injective e8))

-- More than one candidate.
abbrev pub Several : List BranchMetadata → Type 0
Several bs = (x y : BranchMetadata) × (more : List BranchMetadata) × (bs ≡ x ∷ y ∷ more)

-- What each action means.
abbrev pub Chosen :
    BranchSelectionInput
    → BranchSelectionResult
    → BranchSelectionAction
    → List BranchMetadata
    → Type 0
Chosen input r created_initial existing = (existing ≡ []) × (r.matched_existing_branch ≡ none)
Chosen input r continued_existing existing =
    (b : BranchMetadata) × (exact_matches input existing ≡ b ∷ [])
    × (r.matched_existing_branch ≡ some b)
    × (r.branch.branch_id ≡ b.branch_id)
Chosen input r forked_from_ancestor existing =
    (exact_matches input existing ≡ [])
    × ((b : BranchMetadata) × (ancestor_matches input existing ≡ b ∷ [])
        × (r.matched_existing_branch ≡ some b)
        × (r.branch.parent_branch_id ≡ some b.branch_id))
Chosen input r created_ambiguous existing =
    (Several (exact_matches input existing)
      ⊎ ((exact_matches input existing ≡ []) × Several (ancestor_matches input existing)))
    × (r.matched_existing_branch ≡ none)
Chosen input r created_unmatched existing =
    (exact_matches input existing ≡ [])
    × (ancestor_matches input existing ≡ [])
    × (r.matched_existing_branch ≡ none)

module _ (sid : String) (input : BranchSelectionInput) {r : BranchSelectionResult} where
  fork_action :
      (ancestor : BranchMetadata) (w : World)
      → (select_ancestor sid input (ancestor ∷ []) w).0 ≡ ok r
      → (r.action ≡ forked_from_ancestor)
        × (r.matched_existing_branch ≡ some ancestor)
        × (r.branch.parent_branch_id ≡ some ancestor.branch_id)
  fork_action ancestor w h =
      let (branch, w', made, e) =
        bind_ok (create_branch_unlocked sid (fork_params ancestor input)) _ w h in
      let same = ok_injective e in
      (
        ap (λ x. x.action) (sym same),
        ap (λ x. x.matched_existing_branch) (sym same),
        ap (λ x. x.branch.parent_branch_id) (sym same)
            ∙ create_branch_parent sid (fork_params ancestor input) w made,
      )

  module _ (existing : List BranchMetadata) (w : World) where
    by_ancestors :
        (bs : List BranchMetadata)
        → exact_matches input existing ≡ []
        → ancestor_matches input existing ≡ bs
        → (select_ancestor sid input bs w).0 ≡ ok r
        → Chosen input r r.action existing
    by_ancestors [] no_exact found h =
        let (action, unmatched) = create_root_action sid input created_unmatched w h in
        subst (λ a. Chosen input r a existing) (sym action) (no_exact, found, unmatched)
    by_ancestors (b ∷ []) no_exact found h =
        let (action, matched, parent) = fork_action b w h in
        subst (λ a. Chosen input r a existing) (sym action) (no_exact, (b, found, matched, parent))
    by_ancestors (x ∷ y ∷ more) no_exact found h =
        let (action, unmatched) = create_root_action sid input created_ambiguous w h in
        subst (λ a. Chosen input r a existing) (sym action)
          (inr (no_exact, (x, y, more, found)), unmatched)

    by_exact :
        (bs : List BranchMetadata)
        → exact_matches input existing ≡ bs
        → (select_exact sid input existing bs w).0 ≡ ok r
        → Chosen input r r.action existing
    by_exact [] found h = by_ancestors (ancestor_matches input existing) found refl h
    by_exact (b ∷ []) found h =
        let (action, matched, id) = continue_action sid input b w h in
        subst (λ a. Chosen input r a existing) (sym action) (b, found, matched, id)
    by_exact (x ∷ y ∷ more) found h =
        let (action, unmatched) = create_root_action sid input created_ambiguous w h in
        subst (λ a. Chosen input r a existing) (sym action) (inl (x, y, more, found), unmatched)

    initial_or_exact :
        (bs : List BranchMetadata)
        → existing ≡ bs
        → (select_among sid input bs w).0 ≡ ok r
        → Chosen input r r.action existing
    initial_or_exact [] none_yet h =
        let (action, unmatched) = create_root_action sid input created_initial w h in
        subst (λ a. Chosen input r a existing) (sym action) (none_yet, unmatched)
    initial_or_exact (b ∷ bs) some_yet h = by_exact (exact_matches input existing) refl (
        subst (λ l. (select_exact sid input l (exact_matches input l) w).0 ≡ ok r) (sym some_yet) h)

  -- If the selection of a branch succeeds, then the branches of the session were loaded, and the
  -- result's action says which they were: an initial branch means that there were none; a
  -- continued branch is the only one that matches exactly; a fork has as its parent the only
  -- possible ancestor, where none matches exactly; an ambiguous choice means that several match
  -- exactly, or none does and several are possible ancestors; and an unmatched one that there is
  -- neither.
  pub select-Chosen :
      (w : World)
      → (select_or_create_branch_unlocked sid input w).0 ≡ ok r
      → (existing : List BranchMetadata) × ((load_all_branches_for_selection_unlocked sid w).0
          ≡ ok existing)
        × Chosen input r r.action existing
  unfolding select_or_create_branch_unlocked
  select-Chosen w h =
      let (existing, w', loaded, e) =
        bind_ok (load_all_branches_for_selection_unlocked sid) _ w h in
      (existing, loaded, initial_or_exact existing w' existing refl e)
