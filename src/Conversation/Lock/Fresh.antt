-- ===== src/Conversation/Lock/Fresh.antt =====
-- A selection in a session whose directory is gone, where no call of the file system fails.
use cld_gateway.Base.{String, ◌≡◌, refl, sym, subst, List, []}
use cld_gateway.Conversation.Types.{
  BranchMetadata, BranchCreateParams, ClaudeSessionMetadata, BranchSelectionInput,
  BranchSelectionResult, created_initial,
}
use cld_gateway.Conversation.Disk.{
  World, FileOf, absent, put_session_dir, new_uuid, create_session_dir, write_session_json, holds,
  session_at, create_branch_dir, pure, touch, modify, now_unix_seconds, write_branch_json,
}
use cld_gateway.Conversation.Disk.Laws.{
  Reliable, now_at, called, timed, now_unix_seconds_lem, touch_lem, session_at-put,
}
use cld_gateway.Conversation.Disk.Triples.{
  Triple, bind_triple, touch_triple, pure-Runs, now-Runs, uuid-Runs, then-Runs,
  create_branch_dir-Runs, write_session_json-Runs, write_branch_json-Runs,
}
use cld_gateway.Conversation.Branches.{
  ensure_session_unlocked, new_session, load_or_start, load_session, create_branch_unlocked,
  load_all_branches_for_selection_unlocked, collect_branches, append_ledger_event_unlocked,
  write_sparse_checkpoint_unlocked, write_session, new_branch, created_event,
}
use cld_gateway.Conversation.Selection.{
  select_or_create_branch_unlocked, select_among, create_root, root_params,
}
use cld_gateway.Conversation.Turns.Effects.{append_lem, checkpoint_lem}
use cld_gateway.Conversation.Lock.Faults.{kind_of}

-- The file system works, and session.json holds what the predicate says.
abbrev pub Session : String → (FileOf ClaudeSessionMetadata → Type 0) → World → Type 0
Session sid P w = Reliable w × P (session_at sid w).session

abbrev pub Blank : FileOf ClaudeSessionMetadata → Type 0
Blank f = f ≡ absent

create_session_dir_triple :
    (sid : String) (P : FileOf ClaudeSessionMetadata → Type 0)
    → Triple (Session sid P) (create_session_dir sid) (λ _. Session sid P)
unfolding create_session_dir
create_session_dir_triple sid P =
    bind_triple (Session sid P) (λ _. Session sid P) (λ _. Session sid P) touch
      (λ _. modify (λ w. put_session_dir sid (session_at sid w) w))
      (touch_triple (Session sid P) (λ w p. p.0) (λ w p. p))
      (λ _ w p. (
        tt,
        refl,
        (p.0, subst (λ d. P d.session) (sym (session_at-put sid (session_at sid w) w)) p.1),
      ))

-- A new session has no branches.
abbrev Started : String → ClaudeSessionMetadata → World → Type 0
Started sid m w = Session sid (λ f. f ≡ holds m) w × (m.branch_ids ≡ [])

ensure_triple :
    (sid : String) → Triple (Session sid Blank) (ensure_session_unlocked sid) (Started sid)
unfolding ensure_session_unlocked write_session_json
ensure_triple sid =
    bind_triple (Session sid Blank) (λ _. Session sid Blank) (Started sid) (create_session_dir sid)
      _ (create_session_dir_triple sid Blank) (λ _ w p. rw p.1 (start w p.0))
  where
    start : Triple Reliable (load_or_start sid absent) (Started sid)
    start w r = rw (now_unix_seconds_lem w) (
        rw (touch_lem (timed w) r) (
          _,
          refl,
          (
            (
              r,
              rw
                  (session_at-put sid
                    (record (session_at sid (called (timed w))) {
                      session = holds (new_session sid (now_at w));
                    })
                    (called (timed w)))
                  refl,
            ),
            refl,
          ),
        ))

again_triple :
    (sid : String) (m : ClaudeSessionMetadata)
    → Triple (Session sid (λ f. f ≡ holds m)) (ensure_session_unlocked sid) (λ _. Reliable)
unfolding ensure_session_unlocked load_session
again_triple sid m =
    bind_triple (Session sid (λ f. f ≡ holds m)) (λ _. Session sid (λ f. f ≡ holds m))
      (λ _. Reliable) (create_session_dir sid) _ (create_session_dir_triple sid (λ f. f ≡ holds m))
      (λ _ w p. rw p.1 (rw (touch_lem w p.0) (rw p.1 (m, refl, p.0))))

create-Runs_from :
    (sid : String) (p : BranchCreateParams) (P : World → Type 0)
    → Triple P (ensure_session_unlocked sid) (λ _. Reliable)
    → Triple P (create_branch_unlocked sid p) (λ _. Reliable)
unfolding create_branch_unlocked write_session
create-Runs_from sid p P ensure =
    bind_triple P (λ _. Reliable) (λ _. Reliable) (ensure_session_unlocked sid) _ ensure
      (λ session. then-Runs new_uuid _ uuid-Runs (λ bid.
        then-Runs (create_branch_dir sid bid) _ (create_branch_dir-Runs sid bid) (λ _.
          then-Runs now_unix_seconds _ now-Runs (λ now.
            then-Runs (write_branch_json sid bid (new_branch p bid now)) _
              (write_branch_json-Runs sid bid _)
              (λ _.
                then-Runs (append_ledger_event_unlocked sid bid (created_event p bid now)) _
                  (λ w r. rw (append_lem sid w r bid (created_event p bid now)) (tt, refl, r))
                  (λ _.
                    then-Runs
                      (write_sparse_checkpoint_unlocked sid (new_branch p bid now) (kind_of p) now)
                      _
                      (λ w r.
                        rw (checkpoint_lem sid w r (new_branch p bid now) (kind_of p) now)
                          (tt, refl, r))
                      (λ _.
                        then-Runs (write_session_json session.claude_session_id _)
                          (λ _. pure (new_branch p bid now)) (write_session_json-Runs _ _)
                          (λ _. pure-Runs _))))))))

-- The session's file is there.
abbrev Known : String → World → Type 0
Known sid w = (m : ClaudeSessionMetadata) × Session sid (λ f. f ≡ holds m) w

abbrev NoneFound : String → List BranchMetadata → World → Type 0
NoneFound sid bs w = (bs ≡ []) × Known sid w

load_all_triple :
    (sid : String)
    → Triple (Session sid Blank) (load_all_branches_for_selection_unlocked sid) (NoneFound sid)
unfolding load_all_branches_for_selection_unlocked collect_branches
load_all_triple sid =
    bind_triple (Session sid Blank) (Started sid) (NoneFound sid) (ensure_session_unlocked sid) _
      (ensure_triple sid) (λ m w p. rw p.1 ([], refl, (refl, (m, p.0))))

-- A selection in an empty session creates the first branch.
abbrev pub FirstBranch : BranchSelectionResult → World → Type 0
FirstBranch r w = r.action ≡ created_initial

pub select_triple :
    (sid : String) (i : BranchSelectionInput)
    → Triple (Session sid Blank) (select_or_create_branch_unlocked sid i) FirstBranch
unfolding select_or_create_branch_unlocked
select_triple sid i =
    bind_triple (Session sid Blank) (NoneFound sid) FirstBranch
      (load_all_branches_for_selection_unlocked sid) (select_among sid i) (load_all_triple sid)
      (λ bs w p. rw p.0 (first w p.1))
  where
    first : Triple (Known sid) (create_root sid i created_initial) FirstBranch
    first =
        bind_triple (Known sid) (λ _. Reliable) FirstBranch
          (create_branch_unlocked sid (root_params i)) _
          (create-Runs_from sid (root_params i) (Known sid) (λ w k. again_triple sid k.0 w k.1))
          (λ b w r. (_, refl, refl))
