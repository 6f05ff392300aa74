-- ===== src/Conversation/Disk/Triples.antt =====
-- What a computation on the disk guarantees: a result and a condition on the world after it.
use cld_gateway.Base.{String, ◌≡◌, refl, ap, ◌∙◌}
use cld_gateway.Base.Result.{Result, ok, err}
use cld_gateway.Conversation.Types.{
  ClaudeSessionMetadata, BranchMetadata, SparseCheckpoint, StateError,
}
use cld_gateway.Conversation.Disk.{
  Io, World, ◌>>=◌, ◌>>◌, pure, continue, touch, modify, now_unix_seconds, new_uuid,
  create_branch_dir, write_session_json, write_branch_json, write_checkpoint_json,
}
use cld_gateway.Conversation.Disk.Laws.{Reliable, touch_lem, called}

-- From a world with `P`, the computation succeeds, and its value and the world after it have `R`.
abbrev pub Triple : {A : Type 0} → (World → Type 0) → Io A → (A → World → Type 0) → Type 0
Triple {A} P m R = (w : World) → P w → (a : A) × ((m w).0 ≡ ok a) × R a (m w).1

pub bind_triple :
    {A B : Type 0} (P : World → Type 0) (R : A → World → Type 0) (S : B → World → Type 0) (m : Io A)
    (f : A → Io B)
    → Triple P m R
    → ((a : A) → Triple (R a) (f a) S)
    → Triple P (m >>= f) S
bind_triple P R S m f t g w p = let (a, e, r) = t w p in rw e (g a (m w).1 r)

pub touch_triple :
    (P : World → Type 0)
    → ((w : World) → P w → Reliable w)
    → ((w : World) → P w → P (called w))
    → Triple P touch (λ _. P)
touch_triple P reliable keep w p = rw (touch_lem w (reliable w p)) (tt, refl, keep w p)

-- The calls that a working file system always carries out.
abbrev pub Runs : {A : Type 0} → Io A → Type 0
Runs {A} m = Triple Reliable m (λ _. Reliable)

pub touch-Runs : Runs touch
touch-Runs = touch_triple Reliable (λ w r. r) (λ w r. r)

pub modify-Runs : (f : World → World) → ((w : World) → (f w).faults ≡ w.faults) → Runs (modify f)
modify-Runs f keep w r = (tt, refl, λ n. ap (λ g. g n) (keep w) ∙ r n)

pub pure-Runs : {A : Type 0} (a : A) → Runs (pure a)
pure-Runs a w r = (a, refl, r)

pub now-Runs : Runs now_unix_seconds
unfolding now_unix_seconds
now-Runs w r = (_, refl, r)

pub uuid-Runs : Runs new_uuid
unfolding new_uuid
uuid-Runs w r = (_, refl, r)

pub then-Runs :
    {A B : Type 0} (m : Io A) (f : A → Io B) → Runs m → ((a : A) → Runs (f a)) → Runs (m >>= f)
then-Runs m f t g = bind_triple Reliable (λ _. Reliable) (λ _. Reliable) m f t g

-- A call followed by a change of the directories.
pub change-Runs :
    (f : World → World) → ((w : World) → (f w).faults ≡ w.faults) → Runs (touch >> modify f)
change-Runs f keep = then-Runs touch (λ _. modify f) touch-Runs (λ _. modify-Runs f keep)

pub create_branch_dir-Runs : (sid bid : String) → Runs (create_branch_dir sid bid)
unfolding create_branch_dir
create_branch_dir-Runs sid bid = change-Runs _ (λ w. refl)

pub write_session_json-Runs :
    (sid : String) (m : ClaudeSessionMetadata) → Runs (write_session_json sid m)
unfolding write_session_json
write_session_json-Runs sid m = change-Runs _ (λ w. refl)

pub write_branch_json-Runs :
    (sid bid : String) (b : BranchMetadata) → Runs (write_branch_json sid bid b)
unfolding write_branch_json
write_branch_json-Runs sid bid b = change-Runs _ (λ w. refl)

pub write_checkpoint_json-Runs :
    (sid bid : String) (c : SparseCheckpoint) → Runs (write_checkpoint_json sid bid c)
unfolding write_checkpoint_json
write_checkpoint_json-Runs sid bid c = change-Runs _ (λ w. refl)

-- Whatever it returns, the computation leaves a working file system working.
abbrev pub Keeps : {A : Type 0} → Io A → Type 0
Keeps {A} m = (w : World) → (m w).1.faults ≡ w.faults

pub then-Keeps :
    {A B : Type 0} (m : Io A) (f : A → Io B) → Keeps m → ((a : A) → Keeps (f a)) → Keeps (m >>= f)
then-Keeps {A} m f t g w = by_result (m w).0 ∙ t w
  where
    by_result : (r : Result StateError A) → (continue r f (m w).1).1.faults ≡ (m w).1.faults
    by_result (ok a) = g a (m w).1
    by_result (err e) = refl
