-- ===== src/Conversation/Turns/Effects.antt =====
-- The files that the operations on one branch leave behind, in a world where no file-system call
-- fails.
use cld_gateway.Base.{ℕ, suc, String, ◌≡◌, refl, ap, some, List, [], ◌∷◌, ◌++◌, map, sym}
use mathlib.Core.List.{map-append}
use cld_gateway.Base.Result.{ok, err}
use cld_gateway.Conversation.Types.{
  BranchMetadata, CanonicalLedgerEvent, StateError, SparseCheckpointKind,
}
use cld_gateway.Conversation.Disk.{
  World, holds, new_uuid, write_checkpoint_json, branch_at, put_branch_dir,
}
use cld_gateway.Conversation.Disk.Laws.{
  Reliable, now_at, called, timed, now_unix_seconds_lem, touch_lem, branch_at-put,
  create_branch_dir_lem, write_branch_json_lem,
}
use cld_gateway.Conversation.Ledger.{validate_branch_against_ledger}
use cld_gateway.Conversation.Branches.{
  load_branch, load_branch_ledger_events, collect_lines, rebuild_branch_from_disk, lines_of,
  append_ledger_event_unlocked, store_branch_unlocked, write_sparse_checkpoint_unlocked,
  sparse_checkpoint,
}

-- The branch's directory holds `b` in branch.json and the events `es` in ledger.jsonl.
pub record Files (sid bid : String) (b : BranchMetadata) (es : List CanonicalLedgerEvent)
    (w : World) : Type 0 where
  pub branch : (branch_at sid bid w).branch ≡ holds b
  pub ledger : (branch_at sid bid w).ledger ≡ some (map some es)

collect_lines-map : (es : List CanonicalLedgerEvent) → collect_lines (map some es) ≡ ok es
unfolding collect_lines
collect_lines-map [] = refl
collect_lines-map (e ∷ es) = rw (collect_lines-map es, collect_lines)

module _ (sid bid : String) (w : World) (r : Reliable w) where
  pub load_branch_lem :
      {b : BranchMetadata} {es : List CanonicalLedgerEvent}
      → Files sid bid b es w
      → load_branch sid bid w ≡ (ok b, called w)
  unfolding load_branch
  load_branch_lem f = rw (touch_lem w r) (rw f.branch)

  load_branch_ledger_events_lem :
      {b : BranchMetadata} {es : List CanonicalLedgerEvent}
      → Files sid bid b es w
      → load_branch_ledger_events sid bid w ≡ (ok es, called w)
  unfolding load_branch_ledger_events
  load_branch_ledger_events_lem {es} f =
      rw (touch_lem w r) (rw f.ledger (rw (collect_lines-map es)))

  module _ {b : BranchMetadata} {es : List CanonicalLedgerEvent} (f : Files sid bid b es w) where
    -- A branch that agrees with its ledger is loaded.
    pub rebuild_valid :
        validate_branch_against_ledger b es ≡ ok tt
        → rebuild_branch_from_disk sid bid w ≡ (ok b, called (called w))
    unfolding rebuild_branch_from_disk load_branch load_branch_ledger_events
    rebuild_valid v =
        rw (touch_lem w r) (
          rw f.branch
            (rw (touch_lem (called w) r) (rw f.ledger (rw (collect_lines-map es) (rw v)))))

    pub rebuild_invalid :
        {e : StateError}
        → validate_branch_against_ledger b es ≡ err e
        → rebuild_branch_from_disk sid bid w ≡ (err e, called (called w))
    unfolding rebuild_branch_from_disk load_branch load_branch_ledger_events
    rebuild_invalid v =
        rw (touch_lem w r) (
          rw f.branch
            (rw (touch_lem (called w) r) (rw f.ledger (rw (collect_lines-map es) (rw v)))))

-- The world after an append.
abbrev pub appended : String → String → CanonicalLedgerEvent → World → World
appended sid bid e w =
    let w1 = called (put_branch_dir sid bid (branch_at sid bid w) (called w)) in
    let d = branch_at sid bid w1 in
    put_branch_dir sid bid (record d { ledger = some (lines_of d.ledger ++ some e ∷ []) }) w1

-- The world after a store of a branch.
abbrev pub stored : String → BranchMetadata → World → World
stored sid b w =
    put_branch_dir sid b.branch_id
      (record (branch_at sid b.branch_id w) {
        branch = holds (record b { updated_at_unix_seconds = now_at w });
      })
      (called (timed w))

-- The world after a sparse checkpoint of a branch.
abbrev pub checkpointed : String → BranchMetadata → SparseCheckpointKind → ℕ → World → World
checkpointed sid b kind now w =
    let w1 = called (record w { uuids = suc w.uuids }) in
    let d = branch_at sid b.branch_id w1 in
    put_branch_dir sid b.branch_id
      (record d { checkpoints = d.checkpoints ++ sparse_checkpoint b kind now ∷ [] }) w1

module _ (sid : String) (w : World) (r : Reliable w) where
  pub checkpoint_lem :
      (b : BranchMetadata) (kind : SparseCheckpointKind) (now : ℕ)
      → write_sparse_checkpoint_unlocked sid b kind now w ≡ (ok tt, checkpointed sid b kind now w)
  unfolding write_sparse_checkpoint_unlocked new_uuid write_checkpoint_json
  checkpoint_lem b kind now = rw (touch_lem (record w { uuids = suc w.uuids }) r)

  pub append_lem :
      (bid : String) (e : CanonicalLedgerEvent)
      → append_ledger_event_unlocked sid bid e w ≡ (ok tt, appended sid bid e w)
  unfolding append_ledger_event_unlocked
  append_lem bid e =
      rw (create_branch_dir_lem sid bid w r)
        (rw (touch_lem (put_branch_dir sid bid (branch_at sid bid w) (called w)) r))

  pub store_lem : (b : BranchMetadata) → store_branch_unlocked sid b w ≡ (ok tt, stored sid b w)
  unfolding store_branch_unlocked
  store_lem b =
      rw (now_unix_seconds_lem w) (rw (write_branch_json_lem sid b.branch_id _ (timed w) r))

module _ (sid bid : String) {b : BranchMetadata} {es : List CanonicalLedgerEvent} (w : World)
    (f : Files sid bid b es w) where
  pub appended-Files :
      (e : CanonicalLedgerEvent) → Files sid bid b (es ++ e ∷ []) (appended sid bid e w)
  appended-Files e = record {
    branch = rw branch_at-put (rw branch_at-put f.branch);
    ledger =
        rw branch_at-put
          (rw branch_at-put (rw f.ledger (ap some (sym (map-append some es (e ∷ []))))));
  }

  pub stored-Files :
      (b' : BranchMetadata)
      → b'.branch_id ≡ bid
      → Files sid bid (record b' { updated_at_unix_seconds = now_at w }) es (stored sid b' w)
  stored-Files b' named = record {
    branch = rw named (rw branch_at-put);
    ledger = rw named (rw branch_at-put f.ledger);
  }

pub checkpointed-Files :
    (sid bid : String) (c : BranchMetadata) (kind : SparseCheckpointKind) (now : ℕ) (w : World)
    → c.branch_id ≡ bid
    → {b : BranchMetadata} {es : List CanonicalLedgerEvent} → Files sid bid b es w
    → Files sid bid b es (checkpointed sid c kind now w)
checkpointed-Files sid bid c kind now w named f = record {
  branch = rw named (rw branch_at-put f.branch);
  ledger = rw named (rw branch_at-put f.ledger);
}
