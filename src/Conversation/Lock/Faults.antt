-- ===== src/Conversation/Lock/Faults.antt =====
-- The selection of a branch leaves a working file system working, whatever it returns.
use cld_gateway.Base.{ℕ, String, ◌≡◌, refl, List, [], ◌∷◌, is_some, if◌then◌else◌}
use cld_gateway.Base.Result.{Result}
use cld_gateway.Conversation.Types.{
  ClaudeSessionMetadata, BranchMetadata, BranchCreateParams, BranchSelectionInput,
  BranchSelectionAction, StateError, CanonicalLedgerEvent, SparseCheckpoint, SparseCheckpointKind,
}
use cld_gateway.Conversation.Disk.{
  World, FileOf, absent, corrupt, holds, ◌>>◌, pure, lift, touch, modify, now_unix_seconds,
  new_uuid, create_branch_dir, create_session_dir, write_session_json, write_branch_json,
  write_checkpoint_json, session_at,
}
use cld_gateway.Conversation.Disk.Triples.{Keeps, then-Keeps}
use cld_gateway.Conversation.Branches.{
  load_session, load_branch, load_branch_ledger_events, load_or_start, ensure_session_unlocked,
  rebuild_branch_from_disk, collect_branches, load_all_branches_for_selection_unlocked,
  append_ledger_event_unlocked, write_sparse_checkpoint_unlocked, create_branch_unlocked,
  store_branch_unlocked, write_session, new_branch, created_event,
}
use cld_gateway.Conversation.Selection.{
  select_or_create_branch_unlocked, select_among, select_exact, select_ancestor, create_root,
  fork_params, root_params,
}

pub touch-Keeps : Keeps touch
unfolding touch
touch-Keeps w = refl

now-Keeps : Keeps now_unix_seconds
unfolding now_unix_seconds
now-Keeps w = refl

uuid-Keeps : Keeps new_uuid
unfolding new_uuid
uuid-Keeps w = refl

change-Keeps :
    (f : World → World) → ((w : World) → (f w).faults ≡ w.faults) → Keeps (touch >> modify f)
change-Keeps f keep = then-Keeps touch (λ _. modify f) touch-Keeps (λ _. keep)

read-Keeps : {A : Type 0} (f : World → Result StateError A) → Keeps (touch >> λ w. lift (f w) w)
read-Keeps f = then-Keeps touch (λ _ w. lift (f w) w) touch-Keeps (λ _ w. refl)

load_session-Keeps : (sid : String) → Keeps (load_session sid)
unfolding load_session
load_session-Keeps sid = read-Keeps _

load_branch-Keeps : (sid bid : String) → Keeps (load_branch sid bid)
unfolding load_branch
load_branch-Keeps sid bid = read-Keeps _

load_ledger-Keeps : (sid bid : String) → Keeps (load_branch_ledger_events sid bid)
unfolding load_branch_ledger_events
load_ledger-Keeps sid bid = read-Keeps _

pub create_session_dir-Keeps : (sid : String) → Keeps (create_session_dir sid)
unfolding create_session_dir
create_session_dir-Keeps sid = change-Keeps _ (λ w. refl)

create_branch_dir-Keeps : (sid bid : String) → Keeps (create_branch_dir sid bid)
unfolding create_branch_dir
create_branch_dir-Keeps sid bid = change-Keeps _ (λ w. refl)

write_session_json-Keeps :
    (sid : String) (m : ClaudeSessionMetadata) → Keeps (write_session_json sid m)
unfolding write_session_json
write_session_json-Keeps sid m = change-Keeps _ (λ w. refl)

write_branch_json-Keeps :
    (sid bid : String) (b : BranchMetadata) → Keeps (write_branch_json sid bid b)
unfolding write_branch_json
write_branch_json-Keeps sid bid b = change-Keeps _ (λ w. refl)

write_checkpoint_json-Keeps :
    (sid bid : String) (c : SparseCheckpoint) → Keeps (write_checkpoint_json sid bid c)
unfolding write_checkpoint_json
write_checkpoint_json-Keeps sid bid c = change-Keeps _ (λ w. refl)

load_or_start-Keeps :
    (sid : String) (f : FileOf ClaudeSessionMetadata) → Keeps (load_or_start sid f)
load_or_start-Keeps sid absent =
    then-Keeps now_unix_seconds _ now-Keeps
      (λ now. then-Keeps _ _ (write_session_json-Keeps sid _) (λ _ w. refl))
load_or_start-Keeps sid corrupt = load_session-Keeps sid
load_or_start-Keeps sid (holds m) = load_session-Keeps sid

ensure-Keeps : (sid : String) → Keeps (ensure_session_unlocked sid)
unfolding ensure_session_unlocked
ensure-Keeps sid =
    then-Keeps (create_session_dir sid) _ (create_session_dir-Keeps sid)
      (λ _ w. load_or_start-Keeps sid (session_at sid w).session w)

rebuild-Keeps : (sid bid : String) → Keeps (rebuild_branch_from_disk sid bid)
unfolding rebuild_branch_from_disk
rebuild-Keeps sid bid = then-Keeps (load_branch sid bid) _ (load_branch-Keeps sid bid) (λ b.
    then-Keeps (load_branch_ledger_events sid bid) _ (load_ledger-Keeps sid bid)
      (λ es. then-Keeps (lift _) (λ _. pure b) (λ w. refl) (λ _ w. refl)))

collect-Keeps :
    (sid : String) (bids : List String)
    → Keeps (collect_branches (rebuild_branch_from_disk sid) bids)
unfolding collect_branches
collect-Keeps sid [] = λ w. refl
collect-Keeps sid (bid ∷ bids) =
    then-Keeps (rebuild_branch_from_disk sid bid) _ (rebuild-Keeps sid bid)
      (λ b. then-Keeps _ (λ rest. pure (b ∷ rest)) (collect-Keeps sid bids) (λ _ w. refl))

load_all-Keeps : (sid : String) → Keeps (load_all_branches_for_selection_unlocked sid)
unfolding load_all_branches_for_selection_unlocked
load_all-Keeps sid =
    then-Keeps (ensure_session_unlocked sid) _ (ensure-Keeps sid)
      (λ m. collect-Keeps sid m.branch_ids)

append-Keeps :
    (sid bid : String) (e : CanonicalLedgerEvent) → Keeps (append_ledger_event_unlocked sid bid e)
unfolding append_ledger_event_unlocked
append-Keeps sid bid e =
    then-Keeps (create_branch_dir sid bid) _ (create_branch_dir-Keeps sid bid)
      (λ _. change-Keeps _ (λ w. refl))

sparse-Keeps :
    (sid : String) (b : BranchMetadata) (kind : SparseCheckpointKind) (now : ℕ)
    → Keeps (write_sparse_checkpoint_unlocked sid b kind now)
unfolding write_sparse_checkpoint_unlocked
sparse-Keeps sid b kind now =
    then-Keeps new_uuid _ uuid-Keeps (λ _. write_checkpoint_json-Keeps sid b.branch_id _)

-- The kind of a new branch's checkpoint.
abbrev pub kind_of : BranchCreateParams → SparseCheckpointKind
kind_of p =
    if is_some p.parent_branch_id
    then SparseCheckpointKind.branch_fork_created
    else SparseCheckpointKind.branch_created

create-Keeps : (sid : String) (p : BranchCreateParams) → Keeps (create_branch_unlocked sid p)
unfolding create_branch_unlocked write_session
create-Keeps sid p = then-Keeps (ensure_session_unlocked sid) _ (ensure-Keeps sid) (λ session.
    then-Keeps new_uuid _ uuid-Keeps (λ bid.
      then-Keeps (create_branch_dir sid bid) _ (create_branch_dir-Keeps sid bid) (λ _.
        then-Keeps now_unix_seconds _ now-Keeps (λ now.
          then-Keeps (write_branch_json sid bid (new_branch p bid now)) _
            (write_branch_json-Keeps sid bid _)
            (λ _.
              then-Keeps (append_ledger_event_unlocked sid bid (created_event p bid now)) _
                (append-Keeps sid bid _)
                (λ _.
                  then-Keeps
                    (write_sparse_checkpoint_unlocked sid (new_branch p bid now) (kind_of p) now) _
                    (sparse-Keeps sid _ _ now)
                    (λ _.
                      then-Keeps (write_session_json session.claude_session_id _)
                        (λ _. pure (new_branch p bid now)) (write_session_json-Keeps _ _)
                        (λ _ w. refl))))))))

store-Keeps : (sid : String) (b : BranchMetadata) → Keeps (store_branch_unlocked sid b)
unfolding store_branch_unlocked
store-Keeps sid b =
    then-Keeps now_unix_seconds _ now-Keeps (λ now. write_branch_json-Keeps sid b.branch_id _)

create_root-Keeps :
    (sid : String) (i : BranchSelectionInput) (a : BranchSelectionAction)
    → Keeps (create_root sid i a)
create_root-Keeps sid i a =
    then-Keeps (create_branch_unlocked sid (root_params i)) _ (create-Keeps sid _) (λ _ w. refl)

select_ancestor-Keeps :
    (sid : String) (i : BranchSelectionInput) (bs : List BranchMetadata)
    → Keeps (select_ancestor sid i bs)
select_ancestor-Keeps sid i [] = create_root-Keeps sid i _
select_ancestor-Keeps sid i (b ∷ []) =
    then-Keeps (create_branch_unlocked sid (fork_params b i)) _ (create-Keeps sid _) (λ _ w. refl)
select_ancestor-Keeps sid i (b ∷ c ∷ bs) = create_root-Keeps sid i _

select_exact-Keeps :
    (sid : String) (i : BranchSelectionInput) (existing bs : List BranchMetadata)
    → Keeps (select_exact sid i existing bs)
select_exact-Keeps sid i existing [] = select_ancestor-Keeps sid i _
select_exact-Keeps sid i existing (b ∷ []) =
    then-Keeps
      (store_branch_unlocked sid (record b {
        active_canonical_messages = i.active_canonical_messages;
        fingerprints = i.fingerprints;
      }))
      _ (store-Keeps sid _) (λ _ w. refl)
select_exact-Keeps sid i existing (b ∷ c ∷ bs) = create_root-Keeps sid i _

select_among-Keeps :
    (sid : String) (i : BranchSelectionInput) (bs : List BranchMetadata)
    → Keeps (select_among sid i bs)
select_among-Keeps sid i [] = create_root-Keeps sid i _
select_among-Keeps sid i (b ∷ bs) = select_exact-Keeps sid i (b ∷ bs) _

pub select-Keeps :
    (sid : String) (i : BranchSelectionInput) → Keeps (select_or_create_branch_unlocked sid i)
unfolding select_or_create_branch_unlocked
select-Keeps sid i =
    then-Keeps (load_all_branches_for_selection_unlocked sid) _ (load_all-Keeps sid)
      (select_among-Keeps sid i)
