-- ===== src/SchemaGate/Laws.antt =====
-- An object schema is closed, and all of its properties are required.
use Prim.Native.Nat.{Ordering}
use Prim.Native.String.{compare}
use cld_gateway.Base.{
  String, ◌≡◌, refl, ap, sym, ◌∙◌, subst, Bool, true, false, some, List, ◌∷◌, str_eq, if◌then◌else◌,
  arith, eq_iff, Bool-cases, inl, inr,
}
use mathlib.Core.Option.{map}
use cld_gateway.Codex.Completed.{contains}
use cld_gateway.Json.{Json, bool, array, object, Fields, end, field, get, get_field, insert_field}
use cld_gateway.SchemaGate.{
  is_object_schema, original_required, string_items, keys, close_object_schema,
  normalize_openai_strict_schema_value, normalize_fields, normalize_properties, normalize_each,
}

get_field-insert :
    (k j : String) (v : Json) (m : Fields)
    → get_field j (insert_field k v m) ≡ (if str_eq k j then some v else get_field j m)
unfolding get_field insert_field
get_field-insert k j v end = refl
get_field-insert k j v (field i w m) = by_order (compare k i) refl (get_field-insert k j v m)
  where
    same :
        (a b : Bool)
        → a ≡ b
        → (if a then some v else get_field j m)
          ≡ (if a then some v else (if b then some w else get_field j m))
    same true b e = refl
    same false b e = rw (sym e) refl

    later :
        (b : Bool)
        → str_eq k i ≡ false
        → (if str_eq i j then some w else (if str_eq k j then some v else get_field j m))
          ≡ (if str_eq k j then some v else (if str_eq i j then some w else get_field j m))
    later b e = ground (arith, eq_iff k j, eq_iff i j, eq_iff k i)

    by_order :
        (o : Ordering)
        → compare k i ≡ o
        → get_field j (insert_field k v m) ≡ (if str_eq k j then some v else get_field j m)
        → get_field j (elim o [
          | Ordering.lt ↦ field k v (field i w m)
          | Ordering.eq ↦ field k v m
          | Ordering.gt ↦ field i w (insert_field k v m)
        ])
          ≡ (if str_eq k j then some v else (if str_eq i j then some w else get_field j m))
    by_order Ordering.lt h rest = refl
    by_order Ordering.eq h rest =
        same (str_eq k j) (str_eq i j) (ap (λ x. str_eq x j) ((eq_iff k i).0 (rw h refl)))
    by_order Ordering.gt h rest =
        ap (λ r. if str_eq i j then some w else r) rest ∙ later (str_eq k i) (rw h refl)

-- The names of the properties, and the keys of an object, stay.
keys-normalize_each :
    (required : List String) (m : Fields) → keys (normalize_each required m) ≡ keys m
unfolding normalize_each
keys-normalize_each required end = refl
keys-normalize_each required (field k v m) = ap (λ r. k ∷ r) (keys-normalize_each required m)

get_field-normalize_properties :
    (required : List String) (m : Fields)
    → get_field "properties" (normalize_fields true required m)
      ≡ map (normalize_properties required) (get_field "properties" m)
unfolding normalize_fields get_field contains
get_field-normalize_properties required end = refl
get_field-normalize_properties required (field k v m) = elim (Bool-cases (str_eq k "properties")) [
  | inl e ↦
      subst
        (λ x.
          get_field "properties" (normalize_fields true required (field x v m))
          ≡ map (normalize_properties required) (get_field "properties" (field x v m)))
        (sym ((eq_iff k "properties").0 e)) refl
  | inr n ↦ rw n (get_field-normalize_properties required m)
]

close_lem :
    (obj q : Fields)
    → get_field "properties" obj ≡ some (object q)
    → close_object_schema obj
      ≡ insert_field "required"
          (array (string_items (keys q)))
          (insert_field "additionalProperties" (bool false) obj)
unfolding close_object_schema
close_lem obj q h =
    let kept = get_field-insert "additionalProperties" "properties" (bool false) obj ∙ h in
    rw kept (rw kept refl)

-- For an object schema whose `properties` is an object: the normalized schema allows no
-- additional properties, its `properties` is an object with the same names in the same order, and
-- `required` lists exactly these names.
pub strict_object :
    (obj p : Fields)
    → is_object_schema obj ≡ true
    → get "properties" (object obj) ≡ some (object p)
    → let r = normalize_openai_strict_schema_value (object obj) in
      (get "additionalProperties" r ≡ some (bool false))
      × ((q : Fields) × (keys q ≡ keys p)
          × (get "properties" r ≡ some (object q))
          × (get "required" r ≡ some (array (string_items (keys q)))))
unfolding normalize_openai_strict_schema_value get
strict_object obj p h e = rw h (
    rw
      (close_lem (normalize_fields true (original_required obj) obj)
        (normalize_each (original_required obj) p) props)
      (
        get_field-insert "required" "additionalProperties" required closed
            ∙ get_field-insert "additionalProperties" "additionalProperties" (bool false) inner,
        (
          normalize_each (original_required obj) p,
          keys-normalize_each (original_required obj) p,
          get_field-insert "required" "properties" required closed
              ∙ get_field-insert "additionalProperties" "properties" (bool false) inner
              ∙ props,
          get_field-insert "required" "required" required closed,
        ),
      ))
  where
    inner : Fields
    inner = normalize_fields true (original_required obj) obj

    closed : Fields
    closed = insert_field "additionalProperties" (bool false) inner

    required : Json
    required = array (string_items (keys (normalize_each (original_required obj) p)))

    props :
        get_field "properties" (normalize_fields true (original_required obj) obj)
        ≡ some (object (normalize_each (original_required obj) p))
    props =
        get_field-normalize_properties (original_required obj) obj
        ∙ ap (map (normalize_properties (original_required obj))) e
