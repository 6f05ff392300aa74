-- ===== src/Conversation/Lock/Laws.antt =====
-- What the lock does with a corrupt session, where no call of the file system fails.
use cld_gateway.Base.{
  suc, String, ◌≡◌, refl, ap, ◌∙◌, Option, none, some, ◌∷◌, eq_refl, str_eq, if◌then◌else◌, inl,
  inr, ◌⊎◌,
}
use cld_gateway.Base.Dict
use cld_gateway.Base.Dict.{get-insert_self, get-remove}
use cld_gateway.Base.Result.{Result, ok, err}
use cld_gateway.Conversation.Types.{
  BranchSelectionInput, BranchSelectionResult, StateError, io, json, invariant,
  quarantine_and_reset,
}
use cld_gateway.Conversation.Disk.{
  World, SessionDir, new_uuid, create_session_dir, holds, ◌>>◌, touch, continue,
}
use cld_gateway.Conversation.Disk.Laws.{
  Reliable, now_at, called, timed, now_unix_seconds_lem, touch_lem,
}
use cld_gateway.Conversation.Disk.Triples.{
  Triple, bind_triple, Runs, touch-Runs, change-Runs, then-Runs,
}
use cld_gateway.Conversation.Selection.{select_or_create_branch_unlocked}
use cld_gateway.Conversation.Lock.{
  or_quarantine, run_once, acquire, quarantine_session_unlocked, with_session_lock,
  select_or_create_branch, quarantine_dir, move_session_dir,
}
use cld_gateway.Conversation.Lock.Faults.{select-Keeps}
use cld_gateway.Conversation.Lock.Fresh.{Session, Blank, FirstBranch, select_triple}

-- In a world where no call of the file system fails: the quarantine of a session with a directory
-- succeeds; the directory is moved, with what it held, to the quarantine's root, under a name
-- with the session's id, the time and a new UUID, next to a file with the session's id, the error
-- and the time; it is gone from the store, the other sessions are as they were, and the calls
-- that fail are the same.
pub quarantine_lem :
    (sid : String) (e : StateError) (d : SessionDir) (w : World)
    → Reliable w
    → Dict.get sid w.sessions ≡ some d
    → let r = quarantine_session_unlocked sid e w in
      (r.0 ≡ ok tt)
      × (r.1.quarantined
          ≡ record {
            claude_session_id = sid;
            seconds = now_at w;
            uuid = w.uuid w.uuids;
            moved = d;
            metadata = holds (record {
              claude_session_id = sid;
              reason = e;
              quarantined_at_unix_seconds = now_at (timed w);
            });
          }
            ∷ w.quarantined)
      × ((k : String)
          → Dict.get k r.1.sessions ≡ (if str_eq sid k then none else Dict.get k w.sessions))
      × (r.1.faults ≡ w.faults)
unfolding quarantine_session_unlocked new_uuid
quarantine_lem sid e d w r h = rw h (
    rw (touch_lem w r) (
      rw (now_unix_seconds_lem (called w)) (
        rw (touch_lem w3 r) (
          rw (now_unix_seconds_lem w4)
            (rw (touch_lem (timed w4) r) (refl, refl, (λ k. get-remove sid k w.sessions), refl))))))
  where
    w3 : World
    w3 = record (timed (called w)) { uuids = suc w.uuids }

    w4 : World
    w4 = move_session_dir sid (quarantine_dir sid (now_at w) (w.uuid w.uuids) d) (called w3)

quarantine_triple :
    (sid : String) (e : StateError)
    → Triple Reliable (quarantine_session_unlocked sid e) (λ _. Session sid Blank)
unfolding quarantine_session_unlocked
quarantine_triple sid e w r = by_dir (Dict.get sid w.sessions) refl
  where
    by_dir :
        (o : Option SessionDir)
        → Dict.get sid w.sessions ≡ o
        → (t : Unit {0}) × ((quarantine_session_unlocked sid e w).0 ≡ ok t)
          × Session sid Blank (quarantine_session_unlocked sid e w).1
    by_dir none h = rw h (tt, refl, (r, rw h refl))
    by_dir (some d) h =
        let q = quarantine_lem sid e d w r h in
        (tt, q.0, (λ n. ap (λ f. f n) q.3 ∙ r n, rw (q.2 sid) (rw (eq_refl sid) refl)))

retry_triple :
    (sid : String) (e : StateError) (i : BranchSelectionInput)
    → Triple Reliable
        (quarantine_session_unlocked sid e >> select_or_create_branch_unlocked sid i)
        FirstBranch
retry_triple sid e i =
    bind_triple Reliable (λ _. Session sid Blank) FirstBranch (quarantine_session_unlocked sid e)
      (λ _. select_or_create_branch_unlocked sid i) (quarantine_triple sid e)
      (λ _. select_triple sid i)

acquire-Runs : (sid : String) → Runs (acquire sid)
unfolding acquire create_session_dir
acquire-Runs sid =
    then-Runs (create_session_dir sid) _ (change-Runs _ (λ w. refl))
      (λ _. then-Runs touch (λ _. touch) touch-Runs (λ _. touch-Runs))

only_io :
    (x e : StateError) (o : Result StateError BranchSelectionResult) → o ≡ err x → o ≡ err e → e ≡ x
only_io x e o p q = cc

no_error :
    (e : StateError) {x : BranchSelectionResult} (o : Result StateError BranchSelectionResult)
    → o ≡ ok x
    → o ≡ err e
    → e ≡ io
no_error e o p q = cc

module _ (sid : String) (i : BranchSelectionInput) (e : StateError) where
  -- By what the first run returns.
  outcome :
      (first : Result StateError BranchSelectionResult) (v : World)
      → Reliable v
      → (or_quarantine quarantine_and_reset sid (select_or_create_branch_unlocked sid i) first v).0
        ≡ err e
      → e ≡ io
  outcome (ok value) v r h = cc
  outcome (err io) v r h = only_io io e (err io) refl h
  outcome (err json) v r h = no_error e _ (retry_triple sid json i v r).1 h
  outcome (err (invariant x)) v r h = no_error e _ (retry_triple sid (invariant x) i v r).1 h

  after_acquire :
      (got : Result StateError (Unit {0})) (v : World)
      → got ≡ ok tt
      → Reliable v
      → (continue got
          (λ _. run_once quarantine_and_reset sid (select_or_create_branch_unlocked sid i))
          v).0
        ≡ err e
      → e ≡ io
  after_acquire (err x) v g r h = cc
  after_acquire (ok t) v g r h =
      outcome (select_or_create_branch_unlocked sid i v).0
        (select_or_create_branch_unlocked sid i v).1
        (λ n. ap (λ f. f n) (select-Keeps sid i v) ∙ r n) h

select_error :
    (sid : String) (i : BranchSelectionInput) (w : World) (e : StateError)
    → Reliable w
    → (select_or_create_branch quarantine_and_reset sid i w).0 ≡ err e
    → e ≡ io
unfolding select_or_create_branch with_session_lock
select_error sid i w e r h =
    let a = acquire-Runs sid w r in
    after_acquire sid i e (acquire sid w).0 (acquire sid w).1 a.1 a.2 h

-- In a world where no call of the file system fails: under the policy of quarantine and reset,
-- the selection of a branch succeeds, or fails with an I/O error. It never fails with a file that
-- does not parse, or with a branch that disagrees with its ledger.
pub select_recovers :
    (sid : String) (i : BranchSelectionInput) (w : World)
    → Reliable w
    → ((r : BranchSelectionResult) × ((select_or_create_branch quarantine_and_reset sid i w).0
          ≡ ok r))
      ⊎ ((select_or_create_branch quarantine_and_reset sid i w).0 ≡ err io)
select_recovers sid i w r = by_result (select_or_create_branch quarantine_and_reset sid i w).0 refl
  where
    by_result :
        (o : Result StateError BranchSelectionResult)
        → (select_or_create_branch quarantine_and_reset sid i w).0 ≡ o
        → ((r : BranchSelectionResult) × ((select_or_create_branch quarantine_and_reset sid i w).0
              ≡ ok r))
          ⊎ ((select_or_create_branch quarantine_and_reset sid i w).0 ≡ err io)
    by_result (ok x) h = inl (x, h)
    by_result (err e) h = inr (h ∙ ap err (select_error sid i w e r h))
