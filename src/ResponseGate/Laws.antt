-- ===== src/ResponseGate/Laws.antt =====
-- What is left of a response after its null fields and blank text blocks are taken out.
use cld_gateway.Base.{
  ◌≡◌, refl, Bool, true, false, ◌&&◌, not, if◌then◌else◌, inl, inr, Bool-cases, str_eq,
}
use cld_gateway.Json.{
  Json, Items, Fields, null, bool, number, string, array, object, nil, cons, end, field,
}
use cld_gateway.ResponseGate.{
  is_null, keeps_block, retain_blocks, retain_in_array, retain_in_content, clean_items,
  clean_fields, remove_null_fields_and_empty_text_blocks, sanitize_anthropic_response_value,
}

unfoldable pub all_kept : Items → Bool
all_kept nil = true
all_kept (cons x xs) = keeps_block x && all_kept xs

abbrev pub kept_in_array : Json → Bool
kept_in_array (array xs) = all_kept xs
kept_in_array v = true

-- The first field `content`, if it is an array, has no blank text block.
unfoldable pub content_kept : Fields → Bool
content_kept end = true
content_kept (field k v m) = if str_eq k "content" then kept_in_array v else content_kept m

-- At every depth: no field is null, and no array `content` has a blank text block.
unfoldable mutual
  pub is_clean : Json → Bool
  is_clean (object m) = content_kept m && fields_clean m
  is_clean (array xs) = items_clean xs
  is_clean null = true
  is_clean (bool b) = true
  is_clean (number n) = true
  is_clean (string s) = true

  pub items_clean : Items → Bool
  items_clean nil = true
  items_clean (cons x xs) = is_clean x && items_clean xs

  pub fields_clean : Fields → Bool
  fields_clean end = true
  fields_clean (field k v m) = not (is_null v) && (is_clean v && fields_clean m)

and_intro : (a b : Bool) → a ≡ true → b ≡ true → a && b ≡ true
and_intro true b h k = k
and_intro false b h k = h

and_left : (a b : Bool) → a && b ≡ true → a ≡ true
and_left true b h = refl
and_left false b h = h

and_right : (a b : Bool) → a && b ≡ true → b ≡ true
and_right true b h = h
and_right false b h = cc

all_kept-retain_blocks : (xs : Items) → all_kept (retain_blocks xs) ≡ true
unfolding all_kept retain_blocks
all_kept-retain_blocks nil = refl
all_kept-retain_blocks (cons x xs) = elim (Bool-cases (keeps_block x)) [
  | inl kept ↦ rw kept (and_intro (keeps_block x) _ kept (all_kept-retain_blocks xs))
  | inr dropped ↦ rw dropped (all_kept-retain_blocks xs)
]

items_clean-retain_blocks :
    (xs : Items) → items_clean xs ≡ true → items_clean (retain_blocks xs) ≡ true
unfolding items_clean retain_blocks
items_clean-retain_blocks nil h = refl
items_clean-retain_blocks (cons x xs) h =
    let rest = items_clean-retain_blocks xs (and_right (is_clean x) _ h) in
    elim (Bool-cases (keeps_block x)) [
      | inl kept ↦ rw kept (and_intro (is_clean x) _ (and_left (is_clean x) _ h) rest)
      | inr dropped ↦ rw dropped rest
    ]

kept-retain_in_array : (v : Json) → kept_in_array (retain_in_array v) ≡ true
kept-retain_in_array (array xs) = all_kept-retain_blocks xs
kept-retain_in_array null = refl
kept-retain_in_array (bool b) = refl
kept-retain_in_array (number n) = refl
kept-retain_in_array (string s) = refl
kept-retain_in_array (object m) = refl

is_clean-retain_in_array :
    (v : Json)
    → not (is_null v) ≡ true
    → is_clean v ≡ true
    → (not (is_null (retain_in_array v)) ≡ true) × (is_clean (retain_in_array v) ≡ true)
unfolding is_clean
is_clean-retain_in_array (array xs) n h = (refl, items_clean-retain_blocks xs h)
is_clean-retain_in_array null n h = (n, h)
is_clean-retain_in_array (bool b) n h = (n, h)
is_clean-retain_in_array (number x) n h = (n, h)
is_clean-retain_in_array (string s) n h = (n, h)
is_clean-retain_in_array (object m) n h = (n, h)

content_kept-retain_in_content : (m : Fields) → content_kept (retain_in_content m) ≡ true
unfolding content_kept retain_in_content
content_kept-retain_in_content end = refl
content_kept-retain_in_content (field k v m) = elim (Bool-cases (str_eq k "content")) [
  | inl content ↦ rw content (rw content (kept-retain_in_array v))
  | inr other ↦ rw other (rw other (content_kept-retain_in_content m))
]

fields_clean-retain_in_content :
    (m : Fields) → fields_clean m ≡ true → fields_clean (retain_in_content m) ≡ true
unfolding fields_clean retain_in_content
fields_clean-retain_in_content end h = refl
fields_clean-retain_in_content (field k v m) h =
    let present = and_left (not (is_null v)) _ h in
    let rest = and_right (not (is_null v)) _ h in
    let clean = and_left (is_clean v) _ rest in
    let others = and_right (is_clean v) _ rest in
    elim (Bool-cases (str_eq k "content")) [
      | inl content ↦
          let (present', clean') = is_clean-retain_in_array v present clean in
          rw content (and_intro _ _ present' (and_intro _ _ clean' others))
      | inr other ↦
          rw other
            (and_intro _ _ present (and_intro _ _ clean (fields_clean-retain_in_content m others)))
    ]

mutual
  unfolding is_clean remove_null_fields_and_empty_text_blocks

  value_cleaned : (v : Json) → is_clean (remove_null_fields_and_empty_text_blocks v) ≡ true
  value_cleaned (object m) =
      and_intro _ _ (content_kept-retain_in_content (clean_fields m))
        (fields_clean-retain_in_content (clean_fields m) (fields_cleaned m))
  value_cleaned (array xs) = items_cleaned xs
  value_cleaned null = refl
  value_cleaned (bool b) = refl
  value_cleaned (number n) = refl
  value_cleaned (string s) = refl

  items_cleaned : (xs : Items) → items_clean (clean_items xs) ≡ true
  items_cleaned nil = refl
  items_cleaned (cons x xs) = and_intro _ _ (value_cleaned x) (items_cleaned xs)

  fields_cleaned : (m : Fields) → fields_clean (clean_fields m) ≡ true
  fields_cleaned end = refl
  fields_cleaned (field k v m) =
      elim (Bool-cases (is_null (remove_null_fields_and_empty_text_blocks v))) [
        | inl gone ↦ rw gone (fields_cleaned m)
        | inr present ↦
            rw present
              (and_intro _ _ (rw present refl) (and_intro _ _ (value_cleaned v) (fields_cleaned m)))
      ]

-- In a sanitized response, at every depth, no field of an object is null, and an array under the
-- first field `content` of an object has no text block whose text is blank or missing.
pub sanitized-is_clean : (v : Json) → is_clean (sanitize_anthropic_response_value v) ≡ true
unfolding sanitize_anthropic_response_value
sanitized-is_clean v = value_cleaned v
