-- ===== src/Conversation/Turns/Offshoots.antt =====
-- The checkpoints of offshoots: one for each identity that is committed, in the order of their
-- creation.
use mathlib.Core.List.Perm
use mathlib.Core.List.{Perm}
use cld_gateway.Base.{
  ◌≤◌, String, Bool, List, [], ◌∷◌, ◌++◌, filter, insert_by, sort_by, not, str_eq, inl, inr,
  Bool-cases, arith, All,
}
use cld_gateway.Conversation.Types.{OffshootOpenAiCheckpoint}
use cld_gateway.Conversation.Turns.{offshoot_le}

module _ {A : Type 0} (le : A → A → Bool) where
  insert_by-Perm : (x : A) (xs : List A) → Perm (insert_by le x xs) (x ∷ xs)
  unfolding insert_by
  insert_by-Perm x [] = Perm.refl (x ∷ [])
  insert_by-Perm x (y ∷ ys) = elim (Bool-cases (le x y)) [
    | inl first ↦ rw first (Perm.refl (x ∷ y ∷ ys))
    | inr later ↦ rw later (Perm.trans (Perm.cons y (insert_by-Perm x ys)) (Perm.swap x y ys))
  ]

  sort_by-Perm : (xs : List A) → Perm (sort_by le xs) xs
  unfolding sort_by
  sort_by-Perm [] = Perm.nil
  sort_by-Perm (x ∷ xs) =
      Perm.trans (insert_by-Perm x (sort_by le xs)) (Perm.cons x (sort_by-Perm xs))

-- Created earlier, or at the same time.
abbrev pub Older : OffshootOpenAiCheckpoint → OffshootOpenAiCheckpoint → Type 0
Older x y = x.created_at_unix_seconds ≤ y.created_at_unix_seconds

abbrev pub Ordered : List OffshootOpenAiCheckpoint → Type 0
Ordered [] = Unit
Ordered (x ∷ xs) = All (Older x) xs × Ordered xs

All-insert_by :
    (P : OffshootOpenAiCheckpoint → Type 0) (x : OffshootOpenAiCheckpoint)
    (xs : List OffshootOpenAiCheckpoint)
    → P x
    → All P xs
    → All P (insert_by offshoot_le x xs)
unfolding insert_by
All-insert_by P x [] p a = (p, tt)
All-insert_by P x (y ∷ ys) p a = elim (Bool-cases (offshoot_le x y)) [
  | inl first ↦ rw first (p, a)
  | inr later ↦ rw later (a.0, All-insert_by P x ys p a.1)
]

All-Older :
    (x y : OffshootOpenAiCheckpoint) (ys : List OffshootOpenAiCheckpoint)
    → Older x y
    → All (Older y) ys
    → All (Older x) ys
All-Older x y [] h a = tt
All-Older x y (z ∷ zs) h a = (omega (arith, h, a.0), All-Older x y zs h a.1)

insert_by-Ordered :
    (x : OffshootOpenAiCheckpoint) (xs : List OffshootOpenAiCheckpoint)
    → Ordered xs
    → Ordered (insert_by offshoot_le x xs)
unfolding insert_by
insert_by-Ordered x [] o = (tt, tt)
insert_by-Ordered x (y ∷ ys) o = elim (Bool-cases (offshoot_le x y)) [
  | inl first ↦
      let older : Older x y = ground arith in rw first ((older, All-Older x y ys older o.0), o)
  | inr later ↦
      let older : Older y x = ground arith in
      rw later (All-insert_by (Older y) x ys older o.0, insert_by-Ordered x ys o.1)
]

sort_by-Ordered : (xs : List OffshootOpenAiCheckpoint) → Ordered (sort_by offshoot_le xs)
unfolding sort_by
sort_by-Ordered [] = tt
sort_by-Ordered (x ∷ xs) = insert_by-Ordered x (sort_by offshoot_le xs) (sort_by-Ordered xs)

-- The checkpoints of the other identities and the new one, in the order of their creation.
pub record Replaced (identity : String) (new : OffshootOpenAiCheckpoint)
    (old cs : List OffshootOpenAiCheckpoint) : Type 0 where
  pub same : Perm cs (filter (λ c. not (str_eq c.offshoot_identity identity)) old ++ new ∷ [])
  pub ordered : Ordered cs

pub sort_by-Replaced :
    (identity : String) (new : OffshootOpenAiCheckpoint) (old : List OffshootOpenAiCheckpoint)
    → Replaced identity new old (
        sort_by offshoot_le
          (filter (λ c. not (str_eq c.offshoot_identity identity)) old ++ new ∷ []))
sort_by-Replaced identity new old = record {
  same = sort_by-Perm offshoot_le _;
  ordered = sort_by-Ordered _;
}
