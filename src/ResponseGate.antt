-- ===== src/ResponseGate.antt =====
-- old_rust/crates/gateway-http-anthropic/src/claude_response_gate.rs: null fields are taken out of
-- structured output and of responses.
pub mod Laws
mod Tests
use cld_gateway.Base.{
  String, ◌≡◌, refl, Bool, true, false, Option, none, some, List, [], ◌∷◌, str_eq, ◌||◌, ◌&&◌, not,
  if◌then◌else◌, unwrap_or, opt_eq, filter, filter_map,
}
use cld_gateway.Base.Text.{is_blank}
use cld_gateway.Json.{
  Json, Items, Fields, null, bool, number, string, array, object, nil, cons, end, field, get,
  get_field, as_str, as_array, as_object,
}
use cld_gateway.Anthropic.{AnthropicOutputConfig}
use cld_gateway.Codex.Serde.{Serde}
use cld_gateway.Codex.ToolCalls.{get_str, get_array}
use cld_gateway.Codex.Completed.{contains}
use cld_gateway.Codex.ToolCalls.{◌>>=◌}

abbrev pub is_null : Json → Bool
is_null null = true
is_null _ = false

-- `retain` on the blocks of `content`: a text block stays if its text is not blank.
unfoldable pub keeps_block : Json → Bool
keeps_block block =
    if opt_eq (get_str "type" block) (some "text")
    then (elim (get_str "text" block) [ none ↦ false | some t ↦ not (is_blank t) ])
    else true

unfoldable pub retain_blocks : Items → Items
retain_blocks nil = nil
retain_blocks (cons x xs) =
    let rest = retain_blocks xs in if keeps_block x then cons x rest else rest

abbrev pub retain_in_array : Json → Json
retain_in_array (array xs) = array (retain_blocks xs)
retain_in_array v = v

-- The value under `content`, where it is an array, loses its blank text blocks.
unfoldable pub retain_in_content : Fields → Fields
unfolding retain_blocks
retain_in_content end = end
retain_in_content (field k v m) =
    if str_eq k "content" then field k (retain_in_array v) m else field k v (retain_in_content m)

-- The nested values first; then the null fields go, and then the blank text blocks.
unfoldable mutual
  pub remove_null_fields_and_empty_text_blocks : Json → Json
  remove_null_fields_and_empty_text_blocks (object m) = object (retain_in_content (clean_fields m))
  remove_null_fields_and_empty_text_blocks (array xs) = array (clean_items xs)
  remove_null_fields_and_empty_text_blocks null = null
  remove_null_fields_and_empty_text_blocks (bool b) = bool b
  remove_null_fields_and_empty_text_blocks (number n) = number n
  remove_null_fields_and_empty_text_blocks (string s) = string s

  pub clean_items : Items → Items
  clean_items nil = nil
  clean_items (cons x xs) = cons (remove_null_fields_and_empty_text_blocks x) (clean_items xs)

  pub clean_fields : Fields → Fields
  clean_fields end = end
  clean_fields (field k v m) =
      let v' = remove_null_fields_and_empty_text_blocks v in
      let rest = clean_fields m in if is_null v' then rest else field k v' rest

unfoldable pub sanitize_anthropic_response_value : Json → Json
sanitize_anthropic_response_value value = remove_null_fields_and_empty_text_blocks value

unfoldable pub sanitize_anthropic_response_text : Serde → String → String
sanitize_anthropic_response_text S text = elim (S.parse text) [
  | none ↦ text
  | some value ↦ unwrap_or (S.print (sanitize_anthropic_response_value value)) text
]

-- The names in the schema's `required`, none where there is no such array.
unfoldable pub required_of : Fields → List String
unfolding as_str as_array
required_of schema = elim (get_field "required" schema >>= as_array) [
  | none ↦ []
  | some values ↦ filter_map as_str values
]

unfoldable pub properties_of : Fields → Fields
unfolding as_object
properties_of schema = unwrap_or (get_field "properties" schema >>= as_object) end

-- A property is visited where both the value and the schema's `properties` have it. The keys of an
-- object are distinct, so that going through the value's fields visits the same ones.
unfoldable mutual
  pub remove_null_optional_fields : Json → Json → Json
  remove_null_optional_fields (object m) schema = elim (as_object schema) [
    | none ↦ object m
    | some s ↦ object (clean_properties m (required_of s) (properties_of s))
  ]
  remove_null_optional_fields (array xs) schema = elim (get "items" schema) [
    | none ↦ array xs
    | some s ↦ array (clean_elements xs s)
  ]
  remove_null_optional_fields null schema = null
  remove_null_optional_fields (bool b) schema = bool b
  remove_null_optional_fields (number n) schema = number n
  remove_null_optional_fields (string t) schema = string t

  pub clean_elements : Items → Json → Items
  clean_elements nil schema = nil
  clean_elements (cons x xs) schema =
      cons (remove_null_optional_fields x schema) (clean_elements xs schema)

  pub clean_properties : Fields → List String → Fields → Fields
  clean_properties end required properties = end
  clean_properties (field k v m) required properties =
      let rest = clean_properties m required properties in
      elim (get_field k properties) [
        | none ↦ field k v rest
        | some s ↦
            if is_null v && not (contains required k)
            then rest
            else field k (remove_null_optional_fields v s) rest
      ]

unfoldable pub cleanup_structured_output_text_with_schema : Serde → Option Json → String → String
cleanup_structured_output_text_with_schema S none text = text
cleanup_structured_output_text_with_schema S (some schema) text = elim (S.parse text) [
  | none ↦ text
  | some value ↦ unwrap_or (S.print (remove_null_optional_fields value schema)) text
]

-- The `filter` on the output format.
abbrev pub json_schema_format : Json → Option Json
json_schema_format format =
    if opt_eq (get_str "type" format) (some "json_schema") then some format else none

unfoldable pub structured_output_schema_from_config : Option AnthropicOutputConfig → Option Json
structured_output_schema_from_config none = none
structured_output_schema_from_config (some config) =
    config.format >>= json_schema_format >>= get "schema"

unfoldable pub cleanup_structured_output_text_for_anthropic :
    Serde → Option AnthropicOutputConfig → String → String
cleanup_structured_output_text_for_anthropic S output_config text =
    cleanup_structured_output_text_with_schema S
      (structured_output_schema_from_config output_config) text
