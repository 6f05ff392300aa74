-- ===== src/ResponseGate/Tests.antt =====
-- The theorem on sanitized responses at one message.
use cld_gateway.Base.{◌≡◌, true}
use cld_gateway.Json.{Json, null, string, array, object, nil, cons, end, field}
use cld_gateway.ResponseGate.{sanitize_anthropic_response_value}
use cld_gateway.ResponseGate.Laws.{is_clean, sanitized-is_clean}

-- A message with a null field and a blank text block.
abbrev message : Json
message = object (
    field "content"
      (array (cons (object (field "text" (string " ") (field "type" (string "text") end))) nil))
      (field "stop_reason" null end))

sanitized-is_clean_example : is_clean (sanitize_anthropic_response_value message) ≡ true
sanitized-is_clean_example = sanitized-is_clean message
