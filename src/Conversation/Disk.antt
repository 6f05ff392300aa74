-- ===== src/Conversation/Disk.antt =====
-- What old_rust/crates/gateway-state/src/conversation.rs asks of its surroundings: the files below
-- the store's root, the clock, fresh UUIDs, and file-system calls that may fail. The values that
-- the surroundings choose are part of the world: `faults n` says whether the n-th call fails,
-- `clock n` is the n-th reading and `uuid n` the n-th UUID. What a file holds is the value that
-- was written, or `corrupt` where the text does not parse.
pub mod Laws
pub mod Triples
use cld_gateway.Base.{
  ℕ, suc, ◌+◌, ◌-◌, ◌^◌, String, Bool, Option, none, some, List, [], ◌∷◌, ◌++◌, min, unwrap_or,
  if◌then◌else◌,
}
use cld_gateway.Base.Dict
use cld_gateway.Base.Dict.{Dict}
use cld_gateway.Base.Result.{Result, ok, err}
use cld_gateway.Conversation.Types.{
  ClaudeSessionMetadata, BranchMetadata, SparseCheckpoint, CanonicalLedgerEvent, StateError, io,
  json,
}

pub data FileOf {ℓ} (A : Type ℓ) : Type ℓ where
  absent corrupt : FileOf A
  holds : A → FileOf A

-- The directory `tab-{branch_id}`. A line of the ledger that does not parse is `none`.
pub record BranchDir : Type 0 where
  pub branch : FileOf BranchMetadata
  pub ledger : Option (List (Option CanonicalLedgerEvent))
  pub checkpoints : List SparseCheckpoint

-- The directory `session-id-{claude_session_id}`.
pub record SessionDir : Type 0 where
  pub session : FileOf ClaudeSessionMetadata
  pub branches : Dict BranchDir

abbrev pub empty_branch_dir : BranchDir
empty_branch_dir = record { branch = absent; ledger = none; checkpoints = [] }

abbrev pub empty_session_dir : SessionDir
empty_session_dir = record { session = absent; branches = [] }

-- quarantine-metadata.json: the session, the error and the time.
pub record QuarantineMetadata : Type 0 where
  pub claude_session_id : String
  pub reason : StateError
  pub quarantined_at_unix_seconds : ℕ

-- A directory `session-id-{claude_session_id}-{seconds}-{uuid}` below the quarantine's root.
pub record QuarantineDir : Type 0 where
  pub claude_session_id : String
  pub seconds : ℕ
  pub uuid : String
  pub moved : SessionDir
  pub metadata : FileOf QuarantineMetadata

pub record World : Type 0 where
  pub sessions : Dict SessionDir
  pub quarantined : List QuarantineDir
  pub clock : ℕ → ℕ
  pub clock_reads : ℕ
  pub uuid : ℕ → String
  pub uuids : ℕ
  pub faults : ℕ → Bool
  pub calls : ℕ

abbrev pub Io : Type 0 → Type 0
Io A = World → Result StateError A × World

module _ {A : Type 0} where
  abbrev pub pure : A → Io A
  pure a w = (ok a, w)

  abbrev pub raise : StateError → Io A
  raise e w = (err e, w)

  abbrev pub lift : Result StateError A → Io A
  lift r w = (r, w)

module _ {A B : Type 0} where
  abbrev pub continue : Result StateError A → (A → Io B) → Io B
  continue (ok a) f w = f a w
  continue (err e) f w = (err e, w)

  infixl 5 ◌>>=◌ ◌>>◌
  abbrev pub ◌>>=◌ : Io A → (A → Io B) → Io B
  ◌>>=◌ m f w = let (r, w') = m w in continue r f w'

  abbrev pub ◌>>◌ : Io A → Io B → Io B
  m >> k = m >>= λ _. k

-- One call of the file system.
unfoldable pub touch : Io (Unit {0})
touch w = (if w.faults w.calls then err io else ok tt, record w { calls = suc w.calls })

abbrev pub modify : (World → World) → Io (Unit {0})
modify f w = (ok tt, f w)

-- `now_unix_seconds`: the clock's `u64`, cut to what an `i64` holds.
unfoldable pub now_unix_seconds : Io ℕ
now_unix_seconds w =
    (ok (min (w.clock w.clock_reads) (2 ^ 63 - 1)), record w { clock_reads = suc w.clock_reads })

-- `Uuid::new_v4().to_string()`.
unfoldable pub new_uuid : Io String
new_uuid w = (ok (w.uuid w.uuids), record w { uuids = suc w.uuids })

abbrev pub session_at : String → World → SessionDir
session_at sid w = unwrap_or (Dict.get sid w.sessions) empty_session_dir

abbrev pub branch_at : String → String → World → BranchDir
branch_at sid bid w = unwrap_or (Dict.get bid (session_at sid w).branches) empty_branch_dir

abbrev pub put_session_dir : String → SessionDir → World → World
put_session_dir sid d w = record w { sessions = Dict.insert sid d w.sessions }

abbrev pub put_branch_dir : String → String → BranchDir → World → World
put_branch_dir sid bid d w =
    let s = session_at sid w in
    put_session_dir sid (record s { branches = Dict.insert bid d s.branches }) w

-- `std::fs::create_dir_all` of a session's and of a branch's directory.
unfoldable pub create_session_dir : String → Io (Unit {0})
create_session_dir sid = do touch; modify (λ w. put_session_dir sid (session_at sid w) w)

unfoldable pub create_branch_dir : String → String → Io (Unit {0})
create_branch_dir sid bid = do touch; modify (λ w. put_branch_dir sid bid (branch_at sid bid w) w)

-- `std::fs::read` with `serde_json::from_slice`.
abbrev pub parsed {ℓ} : {A : Type ℓ} → FileOf A → Result StateError A
parsed absent = err io
parsed corrupt = err json
parsed (holds a) = ok a

-- `write_json_atomically` of session.json, of branch.json and of a new checkpoint file: the file
-- is replaced whole by the rename, or stays.
unfoldable pub write_session_json : String → ClaudeSessionMetadata → Io (Unit {0})
write_session_json sid m = do
  touch
  modify (λ w. put_session_dir sid (record (session_at sid w) { session = holds m }) w)

unfoldable pub write_branch_json : String → String → BranchMetadata → Io (Unit {0})
write_branch_json sid bid b = do
  touch
  modify (λ w. put_branch_dir sid bid (record (branch_at sid bid w) { branch = holds b }) w)

unfoldable pub write_checkpoint_json : String → String → SparseCheckpoint → Io (Unit {0})
write_checkpoint_json sid bid c = do
  touch
  modify (λ w.
      let d = branch_at sid bid w in
      put_branch_dir sid bid (record d { checkpoints = d.checkpoints ++ c ∷ [] }) w)
