-- ===== src/Codex/Serde.antt =====
-- What the code takes from serde_json: parsing and printing of a `Value`, and the derived decoding
-- of the envelope of `response.completed`. These are parameters of the model.
use cld_gateway.Base.{String, Option}
use cld_gateway.Base.Int.{ℤ}
use cld_gateway.Json.{Json}

-- `CompletedInputTokensDetails` and `CompletedOutputTokensDetails` hold one number each.
pub record CompletedUsage : Type 0 where
  pub input_tokens : ℤ
  pub input_tokens_details : Option ℤ
  pub output_tokens : ℤ
  pub output_tokens_details : Option ℤ
  pub total_tokens : Option ℤ

pub record CompletedResponse : Type 0 where
  pub id : Option String
  pub usage : Option CompletedUsage

pub record CompletedEnvelope : Type 0 where
  pub response : Option CompletedResponse

pub record Serde : Type 0 where
  -- `serde_json::from_str::<Value>`
  pub parse : String → Option Json
  -- the message of its error, for a text that it refuses
  pub parse_error : String → String
  -- `serde_json::to_string`
  pub print : Json → Option String
  -- `serde_json::from_value::<CompletedEnvelope>`
  pub decode_completed : Json → Option CompletedEnvelope
