-- ===== src/SchemaGate.antt =====
-- old_rust/crates/gateway-backend-codex/src/schema_gate.rs: the schemas of a request's body are made
-- strict. The source changes an object key after key; here one pass over the fields treats each
-- where it stands, and the three keys that the source inserts are inserted after it. The keys of an
-- object differ, and a schema at `additionalProperties` is overwritten in both, so that the results
-- are the same. The fields are in the order of the keys, so that the sort of the names changes
-- nothing.
pub mod Laws
pub mod Body
mod Tests
use cld_gateway.Base.{
  String, Bool, true, false, Option, none, some, List, [], ◌∷◌, ◌&&◌, ◌||◌, not, str_eq, is_some,
  filter_map, if◌then◌else◌,
}
use cld_gateway.Codex.Completed.{contains}
use cld_gateway.Codex.ToolCalls.{◌>>=◌}
use cld_gateway.Json.{
  Json, null, bool, number, string, array, object, Items, nil, cons, Fields, end, field, get_field,
  insert_field, as_str, as_array, to_list, from_list,
}

abbrev pub is_text : String → Option String → Bool
is_text s none = false
is_text s (some t) = str_eq t s

unfoldable pub is_object_schema : Fields → Bool
is_object_schema obj =
    is_some (get_field "properties" obj) || is_text "object" (get_field "type" obj >>= as_str)

abbrev pub any_null : Items → Bool
any_null nil = false
any_null (cons x xs) = is_text "null" (as_str x) || any_null xs

abbrev pub push_item : Json → Items → Items
push_item y nil = cons y nil
push_item y (cons x xs) = cons x (push_item y xs)

-- By what the schema has at "type".
abbrev pub nullable_fields : Option Json → Fields → Fields
nullable_fields none obj =
    field "anyOf" (array (cons (object obj) (cons (object (field "type" (string "null") end)) nil)))
      end
nullable_fields (some (string ty)) obj =
    if str_eq ty "null"
    then obj
    else insert_field "type" (array (cons (string ty) (cons (string "null") nil))) obj
nullable_fields (some (array types)) obj =
    if any_null types
    then obj
    else insert_field "type" (array (push_item (string "null") types)) obj
nullable_fields (some null) obj = obj
nullable_fields (some (bool b)) obj = obj
nullable_fields (some (number n)) obj = obj
nullable_fields (some (object m)) obj = obj

unfoldable pub make_schema_nullable : Json → Json
make_schema_nullable (object obj) = object (nullable_fields (get_field "type" obj) obj)
make_schema_nullable null = null
make_schema_nullable (bool b) = bool b
make_schema_nullable (number n) = number n
make_schema_nullable (string s) = string s
make_schema_nullable (array xs) = array xs

unfoldable pub original_required : Fields → List String
original_required obj = elim (get_field "required" obj >>= as_array) [
  | none ↦ []
  | some values ↦ filter_map as_str values
]

abbrev pub schema_keys : List String
schema_keys = "items" ∷ "additionalProperties" ∷ "contains" ∷ "not" ∷ "if" ∷ "then" ∷ "else" ∷ []

abbrev pub schema_array_keys : List String
schema_array_keys = "anyOf" ∷ "oneOf" ∷ "allOf" ∷ []

abbrev pub schema_object_keys : List String
schema_object_keys = "$defs" ∷ "definitions" ∷ []

-- The strings of a JSON array.
abbrev pub string_items : List String → Items
string_items [] = nil
string_items (s ∷ ss) = cons (string s) (string_items ss)

abbrev pub keys : Fields → List String
keys end = []
keys (field k v m) = k ∷ keys m

-- The last insertion: `required`, where `properties` is an object.
abbrev pub insert_required : Option Json → Fields → Fields
insert_required none obj = obj
insert_required (some (object properties)) obj =
    insert_field "required" (array (string_items (keys properties))) obj
insert_required (some null) obj = obj
insert_required (some (bool b)) obj = obj
insert_required (some (number n)) obj = obj
insert_required (some (string s)) obj = obj
insert_required (some (array xs)) obj = obj

abbrev pub or_insert_properties : Fields → Fields
or_insert_properties obj =
    if is_some (get_field "properties" obj) then obj else insert_field "properties" (object end) obj

-- What an object schema gets beside its properties.
unfoldable pub close_object_schema : Fields → Fields
close_object_schema obj =
    let obj' = or_insert_properties (insert_field "additionalProperties" (bool false) obj) in
    insert_required (get_field "properties" obj') obj'

-- The value at a key, from what its schemas become in each place where schemas may stand.
abbrev pub by_key : Bool → String → Json → Json → Json → Json → Json → Json
by_key is_object key v as_schema as_schemas as_definitions as_properties =
    if contains schema_keys key
    then as_schema
    else if contains schema_array_keys key
    then as_schemas
    else if contains schema_object_keys key
    then as_definitions
    else if is_object && str_eq key "properties"
    then as_properties
    else v

unfoldable mutual
  pub normalize_openai_strict_schema_value : Json → Json
  normalize_openai_strict_schema_value (object obj) =
      let obj' = normalize_fields (is_object_schema obj) (original_required obj) obj in
      object (if is_object_schema obj then close_object_schema obj' else obj')
  normalize_openai_strict_schema_value null = null
  normalize_openai_strict_schema_value (bool b) = bool b
  normalize_openai_strict_schema_value (number n) = number n
  normalize_openai_strict_schema_value (string s) = string s
  normalize_openai_strict_schema_value (array xs) = array xs

  pub normalize_fields : Bool → List String → Fields → Fields
  normalize_fields is_object required end = end
  normalize_fields is_object required (field k v m) =
      field k
        (by_key is_object k v (normalize_openai_strict_schema_value v) (normalize_schemas v)
          (normalize_definitions v) (normalize_properties required v))
        (normalize_fields is_object required m)

  -- "anyOf", "oneOf" and "allOf"
  pub normalize_schemas : Json → Json
  normalize_schemas (array xs) = array (normalize_items xs)
  normalize_schemas null = null
  normalize_schemas (bool b) = bool b
  normalize_schemas (number n) = number n
  normalize_schemas (string s) = string s
  normalize_schemas (object m) = object m

  pub normalize_items : Items → Items
  normalize_items nil = nil
  normalize_items (cons x xs) = cons (normalize_openai_strict_schema_value x) (normalize_items xs)

  -- "$defs" and "definitions"
  pub normalize_definitions : Json → Json
  normalize_definitions (object m) = object (normalize_values m)
  normalize_definitions null = null
  normalize_definitions (bool b) = bool b
  normalize_definitions (number n) = number n
  normalize_definitions (string s) = string s
  normalize_definitions (array xs) = array xs

  pub normalize_values : Fields → Fields
  normalize_values end = end
  normalize_values (field k v m) =
      field k (normalize_openai_strict_schema_value v) (normalize_values m)

  -- "properties" of an object schema
  pub normalize_properties : List String → Json → Json
  normalize_properties required (object m) = object (normalize_each required m)
  normalize_properties required null = null
  normalize_properties required (bool b) = bool b
  normalize_properties required (number n) = number n
  normalize_properties required (string s) = string s
  normalize_properties required (array xs) = array xs

  pub normalize_each : List String → Fields → Fields
  normalize_each required end = end
  normalize_each required (field k v m) =
      let v' = normalize_openai_strict_schema_value v in
      field k (if contains required k then v' else make_schema_nullable v')
        (normalize_each required m)

-- A change of the value at a key, where the value is an object that has it: `get_mut`.
abbrev pub update_field : String → (Json → Json) → Fields → Fields
update_field key f end = end
update_field key f (field k v m) =
    let rest = update_field key f m in if str_eq k key then field k (f v) m else field k v rest

abbrev pub update_key : String → (Json → Json) → Json → Json
update_key key f (object m) = object (update_field key f m)
update_key key f null = null
update_key key f (bool b) = bool b
update_key key f (number n) = number n
update_key key f (string s) = string s
update_key key f (array xs) = array xs

unfoldable pub normalize_text_format_schema : Json → Json
normalize_text_format_schema body =
    update_key "text"
      (update_key "format" (update_key "schema" normalize_openai_strict_schema_value)) body

abbrev pub normalize_tool : Json → Json
normalize_tool tool =
    update_key "function" (update_key "parameters" normalize_openai_strict_schema_value)
      (update_key "parameters" normalize_openai_strict_schema_value tool)

abbrev pub normalize_tools : Items → Items
normalize_tools nil = nil
normalize_tools (cons tool tools) = cons (normalize_tool tool) (normalize_tools tools)

abbrev pub normalize_tool_array : Json → Json
normalize_tool_array (array tools) = array (normalize_tools tools)
normalize_tool_array null = null
normalize_tool_array (bool b) = bool b
normalize_tool_array (number n) = number n
normalize_tool_array (string s) = string s
normalize_tool_array (object m) = object m

unfoldable pub normalize_tool_parameter_schemas : Json → Json
normalize_tool_parameter_schemas body = update_key "tools" normalize_tool_array body

unfoldable pub apply_openai_strict_schema_gate : Json → Json
apply_openai_strict_schema_gate body =
    normalize_tool_parameter_schemas (normalize_text_format_schema body)

unfoldable pub normalize_openai_strict_response_schema : Json → Json
normalize_openai_strict_response_schema schema = normalize_openai_strict_schema_value schema
