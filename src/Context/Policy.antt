-- ===== src/Context/Policy.antt =====
-- Which edits apply, in old_rust/crates/gateway-http-anthropic/src/context_management.rs, and the
-- configuration that says so, in old_rust/crates/gateway-core/src/config.rs.
use text.Mathlib.Text.{starts_with}
use cld_gateway.Base.{
  ℕ, String, Bool, true, false, Option, none, some, List, [], ◌∷◌, str_eq, unwrap_or, leb,
  if◌then◌else◌,
}
use cld_gateway.Base.Usize.{usize_max}
use cld_gateway.Json.{Json, null, bool, number, string, array, object, get, as_u64}
use cld_gateway.Codex.ToolCalls.{◌>>=◌, get_str}
use cld_gateway.Anthropic.{AnthropicContextEdit, AnthropicContextManagement}

pub data ContextManagementMode : Type 0 where
  follow_request override_request : ContextManagementMode

pub record ContextManagementHardLimits : Type 0 where
  pub max_tool_result_chars : Option ℕ
  pub max_tool_uses_to_keep : Option ℕ
  pub max_thinking_turns_to_keep : Option ℕ

pub record ContextManagementConfig : Type 0 where
  pub enabled : Bool
  pub mode : ContextManagementMode
  pub default_edits : List Json
  pub override_edits : Option (List Json)
  pub hard_limits : ContextManagementHardLimits

pub record EffectiveContextPolicy : Type 0 where
  pub edits : List AnthropicContextEdit
  pub ignored_edit_types : List String

-- The derived decoding of an edit, `serde_json::from_value::<AnthropicContextEdit>`.
abbrev pub EditDecoder : Type 0
EditDecoder = Json → Option AnthropicContextEdit

abbrev pub is_none_edit : List AnthropicContextEdit → Bool
is_none_edit [] = true
is_none_edit (e ∷ es) = false

-- `keep` of the given type, if its value is a `usize`.
abbrev pub as_usize : Option ℕ → Option ℕ
as_usize none = none
as_usize (some n) = if leb n usize_max then some n else none

unfoldable pub keep_object_value : Option Json → String → Option ℕ
unfolding get as_u64
keep_object_value keep expected_type = do
  value ← keep
  keep_type ← get_str "type" value
  if str_eq keep_type expected_type then as_usize (get "value" value >>= as_u64) else none

unfoldable pub keep_tool_uses : Option Json → Option ℕ
unfolding keep_object_value
keep_tool_uses keep = keep_object_value keep "tool_uses"

-- `none` keeps all: the text "all", or a value that is not understood.
unfoldable pub keep_thinking_turns : Option Json → Option ℕ
unfolding keep_object_value
keep_thinking_turns none = some 1
keep_thinking_turns (some (string s)) =
    if str_eq s "all" then none else keep_object_value (some (string s)) "thinking_turns"
keep_thinking_turns (some null) = keep_object_value (some null) "thinking_turns"
keep_thinking_turns (some (bool b)) = keep_object_value (some (bool b)) "thinking_turns"
keep_thinking_turns (some (number n)) = keep_object_value (some (number n)) "thinking_turns"
keep_thinking_turns (some (array xs)) = keep_object_value (some (array xs)) "thinking_turns"
keep_thinking_turns (some (object m)) = keep_object_value (some (object m)) "thinking_turns"

abbrev pub supports_tool_uses : String → Bool
supports_tool_uses edit_type = starts_with edit_type "clear_tool_uses"

abbrev pub supports_thinking : String → Bool
supports_thinking edit_type = starts_with edit_type "clear_thinking"

module _ (decode_edit : EditDecoder) where
  abbrev pub add_edit :
      Json → Option AnthropicContextEdit → EffectiveContextPolicy → EffectiveContextPolicy
  add_edit value (some edit) p = record p { edits = edit ∷ p.edits }
  add_edit value none p = record p {
    ignored_edit_types =
        unwrap_or (get_str "type" value) "<invalid_context_edit>" ∷ p.ignored_edit_types;
  }

  unfoldable pub config_policy_from_values : List Json → EffectiveContextPolicy
  config_policy_from_values [] = record { edits = []; ignored_edit_types = [] }
  config_policy_from_values (value ∷ values) =
      add_edit value (decode_edit value) (config_policy_from_values values)

  abbrev pub follow :
      ContextManagementConfig → Option AnthropicContextManagement → EffectiveContextPolicy
  follow config none = config_policy_from_values config.default_edits
  follow config (some request) =
      if is_none_edit request.edits
      then config_policy_from_values config.default_edits
      else record { edits = request.edits; ignored_edit_types = [] }

  abbrev pub by_mode :
      ContextManagementMode
      → ContextManagementConfig
      → Option AnthropicContextManagement
      → EffectiveContextPolicy
  by_mode follow_request config request = follow config request
  by_mode override_request config request =
      config_policy_from_values (unwrap_or config.override_edits [])

  unfoldable pub resolve :
      ContextManagementConfig → Option AnthropicContextManagement → EffectiveContextPolicy
  unfolding config_policy_from_values
  resolve config request = by_mode config.mode config request
