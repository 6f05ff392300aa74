-- ===== src/SchemaGate/Tests.antt =====
-- The schema gate's theorems at a body with one schema.
use cld_gateway.Base.{String, ◌≡◌, refl, true, false, some}
use mathlib.Core.Option.{map}
use cld_gateway.Codex.ToolCalls.{◌>>=◌}
use cld_gateway.Json.{
  Json, bool, string, array, object, nil, cons, Fields, end, field, get, get_field, insert_field,
  as_array, as_str,
}
use cld_gateway.Codex.Completed.{contains}
use cld_gateway.SchemaGate.{
  is_object_schema, keys, string_items, normalize_openai_strict_schema_value, close_object_schema,
  make_schema_nullable, original_required, apply_openai_strict_schema_gate,
}
use cld_gateway.SchemaGate.Laws.{strict_object}
use cld_gateway.SchemaGate.Body.{gate_schema, gate_other}

abbrev of_type : String → Json
of_type t = object (field "type" (string t) end)

-- A schema with two properties, of which one is required.
abbrev two_properties : Fields
two_properties = field "a" (of_type "string") (field "b" (of_type "number") end)

abbrev a_schema : Fields
a_schema =
    field "properties" (object two_properties)
      (field "required" (array (cons (string "a") nil)) (field "type" (string "object") end))

abbrev a_body : Json
a_body = object (
    field "model" (string "m") (
      field "text" (object (field "format" (object (field "schema" (object a_schema) end)) end))
        end))

schema_found : is_object_schema a_schema ≡ true
unfolding is_object_schema get_field
schema_found = refl

properties_found : get "properties" (object a_schema) ≡ some (object two_properties)
unfolding get
properties_found = refl

strict_object_example :
    let r = normalize_openai_strict_schema_value (object a_schema) in
    (get "additionalProperties" r ≡ some (bool false))
    × ((q : Fields) × (keys q ≡ keys two_properties)
        × (get "properties" r ≡ some (object q))
        × (get "required" r ≡ some (array (string_items (keys q)))))
strict_object_example = strict_object a_schema two_properties schema_found properties_found

gate_schema_example :
    (get "text" (apply_openai_strict_schema_gate a_body) >>= get "format" >>= get "schema")
    ≡ map normalize_openai_strict_schema_value (get "text" a_body >>= get "format" >>= get "schema")
gate_schema_example = gate_schema a_body

gate_other_example : get "model" (apply_openai_strict_schema_gate a_body) ≡ get "model" a_body
gate_other_example = gate_other "model" a_body refl refl

-- The property that is not required may be null.
optional_is_nullable :
    get "properties" (normalize_openai_strict_schema_value (object a_schema))
    ≡ some (
        object (
          field "a" (of_type "string") (
            field "b"
              (object
                (field "type" (array (cons (string "number") (cons (string "null") nil))) end))
              end)))
unfolding normalize_openai_strict_schema_value get is_object_schema close_object_schema insert_field
    contains original_required as_array as_str make_schema_nullable
optional_is_nullable = refl
