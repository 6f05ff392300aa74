-- ===== src/Conversation/Cleanup/Reads.antt =====
-- What the sessions' files say, and the steps of a clean-up.
use cld_gateway.Base.{
  ℕ, suc, String, ◌≡◌, refl, ap, sym, ◌∙◌, Bool, true, false, none, List, [], ◌∷◌, ◌&&◌, ◌||◌, not,
  str_eq, if◌then◌else◌, inl, inr, Bool-cases, unwrap_or,
}
use cld_gateway.Base.Dict
use cld_gateway.Base.Dict.{get, remove, get-remove}
use cld_gateway.Base.Int.{ℤ, pos, ltb_ℤ}
use cld_gateway.Base.Result.{Result, err}
use cld_gateway.Conversation.Types.{ClaudeSessionMetadata, StateError, io, json}
use cld_gateway.Conversation.Disk.{
  Io, World, FileOf, SessionDir, absent, corrupt, holds, ◌>>=◌, ◌>>◌, touch, continue, parsed,
  session_at, empty_session_dir,
}
use cld_gateway.Conversation.Disk.Laws.{called}
use cld_gateway.Conversation.Branches.{load_session}
use cld_gateway.Conversation.Cleanup.{remove_session_dir}

module _ {A : Type 0} (Q : Result StateError A × World → Type 0) where
  -- A call fails, or what follows it runs.
  pub touch_step :
      (next : Io A) (w : World) → Q (err io, called w) → Q (next (called w)) → Q ((touch >> next) w)
  unfolding touch
  touch_step next w failed done = elim (Bool-cases (w.faults w.calls)) [
    | inl fault ↦ rw fault failed
    | inr fine ↦ rw fine done
  ]

  pub remove_step :
      (sid : String) (next : Io A) (w : World)
      → Q (err io, called w)
      → Q (next (record (called w) { sessions = remove sid w.sessions }))
      → Q ((remove_session_dir sid >> next) w)
  unfolding remove_session_dir touch
  remove_step sid next w failed done = elim (Bool-cases (w.faults w.calls)) [
    | inl fault ↦ rw fault failed
    | inr fine ↦ rw fine done
  ]

  pub load_step :
      (sid : String) (next : ClaudeSessionMetadata → Io A) (w : World)
      → ((e : StateError) → Q (err e, called w))
      → ((m : ClaudeSessionMetadata) → (session_at sid w).session ≡ holds m → Q (next m (called w)))
      → Q ((load_session sid >>= next) w)
  unfolding load_session touch
  load_step sid next w failed done = elim (Bool-cases (w.faults w.calls)) [
    | inl fault ↦ rw fault (failed io)
    | inr fine ↦ rw fine (by_file (session_at sid w).session refl)
  ]
    where
      by_file :
          (f : FileOf ClaudeSessionMetadata)
          → (session_at sid w).session ≡ f
          → Q (continue (parsed f) next (called w))
      by_file absent e = failed io
      by_file corrupt e = failed json
      by_file (holds m) e = done m e

abbrev pub known : String → List String → Bool
known k [] = false
known k (x ∷ xs) = str_eq x k || known k xs

-- What session.json holds.
abbrev pub file_at : Dict.Dict SessionDir → String → FileOf ClaudeSessionMetadata
file_at w sid = (unwrap_or (get sid w) empty_session_dir).session

-- A session whose file says that it is old.
abbrev pub old_file : ℤ → FileOf ClaudeSessionMetadata → Bool
old_file cutoff absent = false
old_file cutoff corrupt = false
old_file cutoff (holds m) = not (ltb_ℤ cutoff (pos m.updated_at_unix_seconds))

abbrev pub is_old : ℤ → Dict.Dict SessionDir → String → Bool
is_old cutoff w sid = old_file cutoff (file_at w sid)

abbrev pub readable_file : FileOf ClaudeSessionMetadata → Bool
readable_file absent = false
readable_file corrupt = false
readable_file (holds m) = true

abbrev pub is_readable : Dict.Dict SessionDir → String → Bool
is_readable w sid = readable_file (file_at w sid)

abbrev pub count_old : ℤ → Dict.Dict SessionDir → List String → ℕ
count_old cutoff w [] = 0
count_old cutoff w (sid ∷ sids) =
    let rest = count_old cutoff w sids in if is_old cutoff w sid then suc rest else rest

file_without :
    (sid k : String) (w : Dict.Dict SessionDir)
    → file_at (remove sid w) k ≡ (if str_eq sid k then absent else file_at w k)
file_without sid k w =
    ap (λ g. (unwrap_or g empty_session_dir).session) (get-remove sid k w) ∙ by_name (str_eq sid k)
  where
    by_name :
        (b : Bool)
        → (unwrap_or (if b then none else get k w) empty_session_dir).session
          ≡ (if b then absent else file_at w k)
    by_name true = refl
    by_name false = refl

pub readable_without :
    (sid k : String) (w : Dict.Dict SessionDir)
    → is_readable (remove sid w) k ≡ true
    → (is_readable w k ≡ true) × (str_eq sid k ≡ false)
readable_without sid k w h =
    present (str_eq sid k) (file_at w k) (ap readable_file (sym (file_without sid k w)) ∙ h)
  where
    present :
        (b : Bool) (f : FileOf ClaudeSessionMetadata)
        → readable_file (if b then absent else f) ≡ true
        → (readable_file f ≡ true) × (b ≡ false)
    present true f g = cc
    present false f g = (g, refl)

pub old_without :
    (c : ℤ) (sid k : String) (w : Dict.Dict SessionDir)
    → is_old c (remove sid w) k ≡ (not (str_eq sid k) && is_old c w k)
old_without c sid k w =
    ap (old_file c) (file_without sid k w) ∙ present (str_eq sid k) (file_at w k)
  where
    present :
        (b : Bool) (f : FileOf ClaudeSessionMetadata)
        → old_file c (if b then absent else f) ≡ (not b && old_file c f)
    present true f = refl
    present false f = refl
