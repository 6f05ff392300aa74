-- ===== src/Conversation/Disk/Laws.antt =====
-- What the file-system calls do in a world where none of them fails, and what they leave alone.
use cld_gateway.Base.{ℕ, suc, String, ◌≡◌, refl, false, arith, min, ◌-◌, ◌^◌, eq_iff, ◌≢◌}
use cld_gateway.Base.Dict.{get-insert, get-insert_self}
use cld_gateway.Base.Result.{ok}
use cld_gateway.Conversation.Types.{BranchMetadata}
use cld_gateway.Conversation.Disk.{
  World, BranchDir, SessionDir, holds, touch, now_unix_seconds, branch_at, session_at,
  put_branch_dir, put_session_dir, create_branch_dir, write_branch_json,
}

-- No call of the file system fails.
abbrev pub Reliable : World → Type 0
Reliable w = (n : ℕ) → w.faults n ≡ false

-- The next reading of the clock.
abbrev pub now_at : World → ℕ
now_at w = min (w.clock w.clock_reads) (2 ^ 63 - 1)

abbrev pub called : World → World
called w = record w { calls = suc w.calls }

abbrev pub timed : World → World
timed w = record w { clock_reads = suc w.clock_reads }

pub now_unix_seconds_lem : (w : World) → now_unix_seconds w ≡ (ok (now_at w), timed w)
unfolding now_unix_seconds
now_unix_seconds_lem w = refl

pub touch_lem : (w : World) → Reliable w → touch w ≡ (ok tt, called w)
unfolding touch
touch_lem w r = rw (r w.calls)

pub session_at-put :
    (sid : String) (d : SessionDir) (w : World) → session_at sid (put_session_dir sid d w) ≡ d
session_at-put sid d w = rw (get-insert_self sid d w.sessions)

pub branch_at-put :
    (sid bid : String) (d : BranchDir) (w : World)
    → branch_at sid bid (put_branch_dir sid bid d w) ≡ d
branch_at-put sid bid d w =
    rw (get-insert_self sid _ w.sessions) (rw (get-insert_self bid d (session_at sid w).branches))

-- A branch's directory holds what was there before a change of another branch's.
pub branch_at-put_ne :
    (sid bid other : String) (d : BranchDir) (w : World)
    → bid ≢ other
    → branch_at sid other (put_branch_dir sid bid d w) ≡ branch_at sid other w
branch_at-put_ne sid bid other d w ne =
    rw (get-insert_self sid _ w.sessions)
      (rw (get-insert bid other d (session_at sid w).branches) (ground (arith, eq_iff bid other)))

pub create_branch_dir_lem :
    (sid bid : String) (w : World)
    → Reliable w
    → create_branch_dir sid bid w ≡ (ok tt, put_branch_dir sid bid (branch_at sid bid w) (called w))
unfolding create_branch_dir
create_branch_dir_lem sid bid w r = rw (touch_lem w r)

pub write_branch_json_lem :
    (sid bid : String) (b : BranchMetadata) (w : World)
    → Reliable w
    → write_branch_json sid bid b w ≡ (
      ok tt,
      put_branch_dir sid bid (record (branch_at sid bid w) { branch = holds b }) (called w),
    )
unfolding write_branch_json
write_branch_json_lem sid bid b w r = rw (touch_lem w r)
