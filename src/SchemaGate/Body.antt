-- ===== src/SchemaGate/Body.antt =====
-- Which parts of a request's body the gate changes.
use mathlib.Core.Option.{map}
use cld_gateway.Base.{
  String, ◌≡◌, refl, ap, sym, ◌∙◌, Bool, true, false, Option, none, some, str_eq, if◌then◌else◌,
  arith, eq_iff, Bool-cases, inl, inr,
}
use cld_gateway.Codex.ToolCalls.{◌>>=◌}
use cld_gateway.Json.{
  Json, null, bool, number, string, array, object, Fields, end, field, get, get_field,
}
use cld_gateway.SchemaGate.{
  update_field, update_key, normalize_openai_strict_schema_value, normalize_tool_array,
  normalize_text_format_schema, normalize_tool_parameter_schemas, apply_openai_strict_schema_gate,
}

same_either : (b : Bool) (o : Option Json) → o ≡ (if b then o else o)
same_either true o = refl
same_either false o = refl

get_field-update :
    (k j : String) (f : Json → Json) (m : Fields)
    → get_field j (update_field k f m)
      ≡ (if str_eq k j then map f (get_field j m) else get_field j m)
unfolding get_field
get_field-update k j f end = same_either (str_eq k j) none
get_field-update k j f (field i v m) = elim (Bool-cases (str_eq i k)) [
  | inl e ↦
      rw e
        (same (str_eq i j) (str_eq k j) (ap (λ x. str_eq x j) ((eq_iff i k).0 e)) v (get_field j m))
  | inr n ↦ rw n (ap (λ r. if str_eq i j then some v else r) (get_field-update k j f m) ∙ later n)
]
  where
    same :
        (a b : Bool)
        → a ≡ b
        → (w : Json) (g : Option Json)
        → (if a then some (f w) else g)
          ≡ (if b then map f (if a then some w else g) else (if a then some w else g))
    same true b e w g = rw (sym e) refl
    same false b e w g = rw (sym e) refl

    later :
        str_eq i k ≡ false
        → (if str_eq i j
            then some v
            else (if str_eq k j then map f (get_field j m) else get_field j m))
          ≡ (if str_eq k j
              then map f (if str_eq i j then some v else get_field j m)
              else (if str_eq i j then some v else get_field j m))
    later n = ground (arith, eq_iff i j, eq_iff k j, eq_iff i k)

get-update :
    (k j : String) (f : Json → Json) (body : Json)
    → get j (update_key k f body) ≡ (if str_eq k j then map f (get j body) else get j body)
unfolding get
get-update k j f (object m) = get_field-update k j f m
get-update k j f null = same_either (str_eq k j) none
get-update k j f (bool b) = same_either (str_eq k j) none
get-update k j f (number n) = same_either (str_eq k j) none
get-update k j f (string s) = same_either (str_eq k j) none
get-update k j f (array xs) = same_either (str_eq k j) none

-- At the path text, format, schema of a body, the gate leaves the normalized form of what was
-- there, and nothing where there was nothing.
pub gate_schema :
    (body : Json)
    → (get "text" (apply_openai_strict_schema_gate body) >>= get "format" >>= get "schema")
      ≡ map normalize_openai_strict_schema_value (get "text" body >>= get "format" >>= get "schema")
unfolding apply_openai_strict_schema_gate normalize_text_format_schema
    normalize_tool_parameter_schemas
gate_schema body =
    ap (λ o. o >>= get "format" >>= get "schema")
      (get-update "tools" "text" normalize_tool_array (update_key "text" in_text body)
        ∙ get-update "text" "text" in_text body)
    ∙ below_text (get "text" body)
  where
    in_format : Json → Json
    in_format = update_key "schema" normalize_openai_strict_schema_value

    in_text : Json → Json
    in_text = update_key "format" in_format

    below_format :
        (o : Option Json)
        → (map in_format o >>= get "schema")
          ≡ map normalize_openai_strict_schema_value (o >>= get "schema")
    below_format none = refl
    below_format (some v) = get-update "schema" "schema" normalize_openai_strict_schema_value v

    below_text :
        (o : Option Json)
        → (map in_text o >>= get "format" >>= get "schema")
          ≡ map normalize_openai_strict_schema_value (o >>= get "format" >>= get "schema")
    below_text none = refl
    below_text (some v) =
        ap (λ o. o >>= get "schema") (get-update "format" "format" in_format v)
        ∙ below_format (get "format" v)

-- The gate leaves what a body has at a key that is neither `text` nor `tools`.
pub gate_other :
    (key : String) (body : Json)
    → str_eq "text" key ≡ false
    → str_eq "tools" key ≡ false
    → get key (apply_openai_strict_schema_gate body) ≡ get key body
unfolding apply_openai_strict_schema_gate normalize_text_format_schema
    normalize_tool_parameter_schemas
gate_other key body h k =
    get-update "tools" key normalize_tool_array _ ∙ rw k (get-update "text" key _ body ∙ rw h refl)
