-- ===== src/Conversation/Cleanup.antt =====
-- The removal of old sessions, in old_rust/crates/gateway-state/src/conversation.rs. The root
-- exists, and holds the sessions' directories alone.
pub mod Reads
pub mod Laws
pub mod Stuck
use cld_gateway.Base.{
  ℕ, suc, ◌*◌, ◌-◌, ◌^◌, String, Option, none, some, List, [], ◌∷◌, leb, if◌then◌else◌,
}
use cld_gateway.Base.Dict
use cld_gateway.Base.Int.{ℤ, pos, ltb_ℤ, i64_max, ◌-ℤ◌}
use cld_gateway.Conversation.Types.{ClaudeSessionMetadata}
use cld_gateway.Conversation.Disk.{
  Io, SessionDir, pure, ◌>>=◌, ◌>>◌, touch, modify, now_unix_seconds,
}
use cld_gateway.Conversation.Branches.{load_session}

abbrev pub checked_mul : ℕ → Option ℕ → Option ℕ
checked_mul k none = none
checked_mul k (some n) = if leb (n * k) (2 ^ 64 - 1) then some (n * k) else none

abbrev pub i64_try_from : Option ℕ → Option ℕ
i64_try_from none = none
i64_try_from (some n) = if leb n i64_max then some n else none

-- The age in seconds, if an `i64` holds it.
unfoldable pub max_age_seconds : ℕ → Option ℕ
max_age_seconds days = i64_try_from (checked_mul 60 (checked_mul 60 (checked_mul 24 (some days))))

-- The names that the directory yields.
abbrev pub session_ids : List (String × SessionDir) → List String
session_ids [] = []
session_ids ((sid, d) ∷ entries) = sid ∷ session_ids entries

unfoldable pub remove_session_dir : String → Io (Unit {0})
remove_session_dir sid = do touch; modify (λ w. record w { sessions = Dict.remove sid w.sessions })

-- What follows the load of a session, where `rest` is the loop on the other entries.
abbrev pub sweep_session : ℤ → String → (ℕ → Io ℕ) → ℕ → ClaudeSessionMetadata → Io ℕ
sweep_session cutoff sid rest removed session =
    if ltb_ℤ cutoff (pos session.updated_at_unix_seconds)
    then rest removed
    else remove_session_dir sid >> rest (suc removed)

-- The loop over the entries. Each costs two calls before its session is loaded.
unfoldable pub sweep : ℤ → List String → ℕ → Io ℕ
sweep cutoff [] removed = pure removed
sweep cutoff (sid ∷ sids) removed = do
  touch
  touch
  session ← load_session sid
  sweep_session cutoff sid (sweep cutoff sids) removed session

unfoldable pub cleanup_sessions_older_than_unix_seconds : ℤ → Io ℕ
cleanup_sessions_older_than_unix_seconds cutoff = do
  touch
  λ w. sweep cutoff (session_ids w.sessions) 0 w

abbrev pub cleanup_older_than : Option ℕ → Io ℕ
cleanup_older_than none = pure 0
cleanup_older_than (some age) = do
  now ← now_unix_seconds
  cleanup_sessions_older_than_unix_seconds (pos now -ℤ pos age)

unfoldable pub cleanup_sessions_older_than_days : ℕ → Io ℕ
cleanup_sessions_older_than_days days = cleanup_older_than (max_age_seconds days)
