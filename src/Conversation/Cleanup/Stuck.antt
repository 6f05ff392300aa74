-- ===== src/Conversation/Cleanup/Stuck.antt =====
-- A session's directory without session.json, which the lock of an operation leaves behind.
use cld_gateway.Base.{
  ℕ, String, ◌≡◌, ap, sym, ◌∙◌, subst, Bool, true, false, none, some, [], ◌∷◌, All, unwrap_or,
  str_eq, if◌then◌else◌, Bool-cases, inl, inr, eq_iff,
}
use cld_gateway.Base.Dict
use cld_gateway.Base.Dict.{get, get-insert_self}
use cld_gateway.Base.Int.{ℤ}
use cld_gateway.Base.Result.{ok, err}
use cld_gateway.Conversation.Types.{
  CommitTurnParams, ConversationStateCorruptionPolicy, fail_closed, quarantine_and_reset, io,
}
use cld_gateway.Conversation.Disk.{World, SessionDir, empty_session_dir, create_session_dir}
use cld_gateway.Conversation.Disk.Laws.{Reliable, called, touch_lem}
use cld_gateway.Conversation.Branches.{load_branch}
use cld_gateway.Conversation.Turns.{commit_turn_unlocked}
use cld_gateway.Conversation.Lock.{or_quarantine, acquire, with_session_lock, commit_turn}
use cld_gateway.Conversation.Cleanup.{session_ids, cleanup_sessions_older_than_unix_seconds}
use cld_gateway.Conversation.Cleanup.Reads.{is_readable, readable_file}
use cld_gateway.Conversation.Cleanup.Laws.{cleanup_lem}

-- A directory that is there is among the entries.
listed :
    (P : String → Type 0) (w : Dict.Dict SessionDir) (sid : String) {d : SessionDir}
    → get sid w ≡ some d
    → All P (session_ids w)
    → P sid
unfolding get
listed P [] sid h a = cc
listed P ((j, v) ∷ w) sid {d} h a = elim (Bool-cases (str_eq j sid)) [
  | inl same ↦ subst P ((eq_iff j sid).0 same) a.0
  | inr other ↦ listed P w sid (by_name (str_eq j sid) other h) a.1
]
  where
    by_name :
        (b : Bool) → b ≡ false → (if b then some v else get sid w) ≡ some d → get sid w ≡ some d
    by_name true e k = cc
    by_name false e k = k

module _ (sid bid : String) (p : CommitTurnParams) (w : World) (r : Reliable w) where
  commit_unknown :
      (policy : ConversationStateCorruptionPolicy)
      → get sid w.sessions ≡ none
      → get sid (commit_turn policy sid bid p w).1.sessions ≡ some empty_session_dir
  unfolding commit_turn with_session_lock acquire create_session_dir commit_turn_unlocked
      load_branch get
  commit_unknown policy h = rw (touch_lem w r) (
      rw h (
        rw (touch_lem w1 r) (
          rw (touch_lem (called w1) r) (
            rw (touch_lem (called (called w1)) r)
              (rw (get-insert_self sid empty_session_dir w.sessions) (by_policy policy))))))
    where
      w1 : World
      w1 = record (called w) { sessions = Dict.insert sid empty_session_dir w.sessions }

      by_policy :
          (q : ConversationStateCorruptionPolicy)
          → get sid
              (or_quarantine q sid
                (commit_turn_unlocked sid bid p)
                (err io)
                (called (called (called w1)))).1.sessions
            ≡ some empty_session_dir
      by_policy fail_closed = get-insert_self sid empty_session_dir w.sessions
      by_policy quarantine_and_reset = get-insert_self sid empty_session_dir w.sessions

  -- In a world where no call of the file system fails: after a commit of a turn to a session that
  -- is not there, under either policy, the removal of old sessions does not succeed, whatever its
  -- cutoff.
  pub commit_then_stuck :
      (policy : ConversationStateCorruptionPolicy) (cutoff : ℤ) (n : ℕ)
      → get sid w.sessions ≡ none
      → ¬ (
          (cleanup_sessions_older_than_unix_seconds cutoff (commit_turn policy sid bid p w).1).0
          ≡ ok n)
  commit_then_stuck policy cutoff n h done =
      let after = (commit_turn policy sid bid p w).1 in
      let left = commit_unknown policy h in
      absent_unreadable after.sessions left (
        listed (λ k. is_readable after.sessions k ≡ true) after.sessions sid left
          (cleanup_lem cutoff after done).0)
    where
      false_true : false ≡ true → ⊥
      false_true e = cc

      absent_unreadable :
          (s : Dict.Dict SessionDir)
          → get sid s ≡ some empty_session_dir
          → is_readable s sid ≡ true
          → ⊥
      absent_unreadable s left readable =
          false_true
            (sym (ap (λ o. readable_file (unwrap_or o empty_session_dir).session) left) ∙ readable)
