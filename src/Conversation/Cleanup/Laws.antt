-- ===== src/Conversation/Cleanup/Laws.antt =====
-- What the removal of old sessions removes, and what it keeps.
use cld_gateway.Base.{
  ℕ, suc, ◌+◌, String, ◌≡◌, refl, ◌∙◌, subst, Bool, true, false, Option, none, some, List, [], ◌∷◌,
  ◌&&◌, ◌||◌, not, str_eq, arith, if◌then◌else◌, inl, inr, Bool-cases, All, eq_iff, unwrap_or,
}
use cld_gateway.Base.Dict
use cld_gateway.Base.Dict.{get, remove, get-remove}
use cld_gateway.Base.Int.{ℤ, pos, ltb_ℤ}
use cld_gateway.Base.Result.{Result, ok, err}
use cld_gateway.Conversation.Types.{ClaudeSessionMetadata, StateError}
use cld_gateway.Conversation.Disk.{World, SessionDir, holds, session_at, empty_session_dir}
use cld_gateway.Conversation.Disk.Laws.{called}
use cld_gateway.Conversation.Cleanup.{
  session_ids, sweep_session, sweep, cleanup_sessions_older_than_unix_seconds,
}
use cld_gateway.Conversation.Cleanup.Reads.{
  touch_step, remove_step, load_step, known, file_at, old_file, is_old, is_readable, count_old,
  readable_without, old_without,
}

-- What a sweep that ends well has found and done.
Swept : ℤ → Dict.Dict SessionDir → List String → ℕ → Result StateError ℕ × World → Type 0
Swept c w sids k (err e, w') = Unit
Swept c w sids k (ok n, w') =
    All (λ sid. is_readable w sid ≡ true) sids
    × (n ≡ k + count_old c w sids)
    × ((sid : String)
        → get sid w'.sessions ≡ (if known sid sids && is_old c w sid then none else get sid w))

All-without :
    (sid : String) (w : Dict.Dict SessionDir) (sids : List String)
    → All (λ k. is_readable (remove sid w) k ≡ true) sids
    → All (λ k. is_readable w k ≡ true) sids
All-without sid w [] a = tt
All-without sid w (k ∷ ks) a = ((readable_without sid k w a.0).0, All-without sid w ks a.1)

count_without :
    (c : ℤ) (sid : String) (w : Dict.Dict SessionDir) (sids : List String)
    → All (λ k. is_readable (remove sid w) k ≡ true) sids
    → count_old c (remove sid w) sids ≡ count_old c w sids
count_without c sid w [] a = refl
count_without c sid w (k ∷ ks) a =
    rw (old_without c sid k w)
      (rw ((readable_without sid k w a.0).1) (rw (count_without c sid w ks a.1)))

-- One session more: it was kept.
kept-Swept :
    (c : ℤ) (w : Dict.Dict SessionDir) (sid : String) (sids : List String) (k : ℕ)
    (r : Result StateError ℕ × World)
    → is_readable w sid ≡ true
    → is_old c w sid ≡ false
    → Swept c w sids k r
    → Swept c w (sid ∷ sids) k r
unfolding Swept
kept-Swept c w sid sids k (err e, w') readable recent s = tt
kept-Swept c w sid sids k (ok n, w') readable recent s =
    ((readable, s.0), s.1 ∙ rw recent, λ x. s.2 x ∙ other x (str_eq sid x) refl)
  where
    other :
        (x : String) (b : Bool)
        → str_eq sid x ≡ b
        → (if known x sids && is_old c w x then none else get x w)
          ≡ (if (b || known x sids) && is_old c w x then none else get x w)
    other x false e = refl
    other x true e =
        let fresh : is_old c w x ≡ false =
          subst (λ y. is_old c w y ≡ false) ((eq_iff sid x).0 e) recent in
        ground arith

get_without :
    (sid k : String) (w : Dict.Dict SessionDir)
    → get k (remove sid w) ≡ (if str_eq sid k then none else get k w)
get_without sid k w = get-remove sid k w

-- Removed now or later.
merged :
    {V : Type 0} (now later old : Bool) (g : Option V)
    → (now ≡ true → old ≡ true)
    → (if later && (not now && old) then none else (if now then none else g))
      ≡ (if (now || later) && old then none else g)
merged true true old g h = rw (h refl) refl
merged true false old g h = rw (h refl) refl
merged false later old g h = refl

-- One session more: it was removed.
removed-Swept :
    (c : ℤ) (w : Dict.Dict SessionDir) (sid : String) (sids : List String) (k : ℕ)
    (r : Result StateError ℕ × World)
    → is_readable w sid ≡ true
    → is_old c w sid ≡ true
    → Swept c (remove sid w) sids (suc k) r
    → Swept c w (sid ∷ sids) k r
unfolding Swept
removed-Swept c w sid sids k (err e, w') readable old s = tt
removed-Swept c w sid sids k (ok n, w') readable old s = (
  (readable, All-without sid w sids s.0),
  s.1 ∙ rw old (rw (count_without c sid w sids s.0) (omega arith)),
  λ x.
      s.2 x
      ∙ rw (old_without c sid x w) (
          rw (get_without sid x w) (
            merged (str_eq sid x) (known x sids) (is_old c w x) (get x w)
              (λ e. subst (λ y. is_old c w y ≡ true) ((eq_iff sid x).0 e) old))),
)

sweep-Swept :
    (c : ℤ) (sids : List String) (k : ℕ) (w : World) → Swept c w.sessions sids k (sweep c sids k w)
unfolding sweep Swept
sweep-Swept c [] k w = (tt, omega arith, λ sid. refl)
sweep-Swept c (sid ∷ sids) k w = touch_step (Swept c w.sessions (sid ∷ sids) k) _ w tt (
    touch_step (Swept c w.sessions (sid ∷ sids) k) _ (called w) tt (
      load_step (Swept c w.sessions (sid ∷ sids) k) sid _ (called (called w)) (λ e. tt)
        (swept (λ n v. sweep-Swept c sids n v))))
  where
    swept :
        ((n : ℕ) (v : World) → Swept c v.sessions sids n (sweep c sids n v))
        → (m : ClaudeSessionMetadata) → (session_at sid w).session ≡ holds m
        → Swept c w.sessions
            (sid ∷ sids)
            k
            (sweep_session c sid (sweep c sids) k m (called (called (called w))))
    swept rest m h = elim (Bool-cases (ltb_ℤ c (pos m.updated_at_unix_seconds))) [
      | inl recent ↦ rw recent (
          kept-Swept c w.sessions sid sids k _ (rw h refl) (rw h (rw recent refl))
            (rest k (called (called (called w)))))
      | inr past ↦ rw past (
          remove_step (Swept c w.sessions (sid ∷ sids) k) sid _ _ tt (
            removed-Swept c w.sessions sid sids k _ (rw h refl) (rw h (rw past refl))
              (rest (suc k) _)))
    ]

old_known :
    (c : ℤ) (w : Dict.Dict SessionDir) (sid : String)
    → is_old c w sid ≡ true
    → known sid (session_ids w) ≡ true
unfolding get
old_known c [] sid h = cc
old_known c ((j, d) ∷ w) sid h = by_name (old_known c w sid) (str_eq j sid) h
  where
    by_name :
        (old_file c (file_at w sid) ≡ true → known sid (session_ids w) ≡ true)
        → (b : Bool)
        → old_file c (unwrap_or (if b then some d else get sid w) empty_session_dir).session ≡ true
        → (b || known sid (session_ids w)) ≡ true
    by_name rest true e = refl
    by_name rest false e = rest e

ok_injective : (m n : ℕ) (r : Result StateError ℕ) → r ≡ ok m → r ≡ ok n → m ≡ n
ok_injective m n r e f = cc

of_ok :
    (c : ℤ) (w : Dict.Dict SessionDir) {n : ℕ} (r : Result StateError ℕ × World)
    → Swept c w (session_ids w) 0 r
    → r.0 ≡ ok n
    → All (λ sid. is_readable w sid ≡ true) (session_ids w)
      × (n ≡ count_old c w (session_ids w))
      × ((sid : String) → get sid r.1.sessions ≡ (if is_old c w sid then none else get sid w))
unfolding Swept
of_ok c w (err e, w') s h = cc
of_ok c w {n} (ok m, w') s h =
    (s.0, from_zero s.1, λ sid. s.2 sid ∙ all_known sid (is_old c w sid) (old_known c w sid))
  where
    from_zero : m ≡ 0 + count_old c w (session_ids w) → n ≡ count_old c w (session_ids w)
    from_zero e = let same = ok_injective m n (ok m) refl h in omega arith

    all_known :
        (sid : String) (b : Bool)
        → (b ≡ true → known sid (session_ids w) ≡ true)
        → (if known sid (session_ids w) && b then none else get sid w)
          ≡ (if b then none else get sid w)
    all_known sid true k = rw (k refl) refl
    all_known sid false k = ground arith

-- Whichever calls of the file system may fail: if the removal of old sessions succeeds, then
-- every session's file could be read, the number that it returns is that of the sessions whose
-- last update is not after the cutoff, and afterwards these are gone and the directory of every
-- other session is what it was.
pub cleanup_lem :
    (c : ℤ) (w : World) {n : ℕ}
    → (cleanup_sessions_older_than_unix_seconds c w).0 ≡ ok n
    → All (λ sid. is_readable w.sessions sid ≡ true) (session_ids w.sessions)
      × (n ≡ count_old c w.sessions (session_ids w.sessions))
      × ((sid : String)
          → get sid (cleanup_sessions_older_than_unix_seconds c w).1.sessions
            ≡ (if is_old c w.sessions sid then none else get sid w.sessions))
unfolding cleanup_sessions_older_than_unix_seconds Swept
cleanup_lem c w h =
    of_ok c w.sessions (cleanup_sessions_older_than_unix_seconds c w)
      (touch_step (Swept c w.sessions (session_ids w.sessions) 0) _ w tt
        (sweep-Swept c (session_ids w.sessions) 0 (called w)))
      h
