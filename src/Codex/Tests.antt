-- ===== src/Codex/Tests.antt =====
-- The theorems on the backend's data at concrete values.
use cld_gateway.Base.{◌≡◌, refl, some, none, List, [], ◌∷◌, ◌++◌, String}
use cld_gateway.Base.Result.{Result, ok, err}
use cld_gateway.Base.Text.{trim}
use cld_gateway.Codex.Failure.{parse_backend_failure_event}
use cld_gateway.Codex.OutputText.{extract_text_from_data, extract_last_text_from_value}
use cld_gateway.Json.{get_field, string, object, field, end}
use cld_gateway.Codex.Serde.{Serde}
use cld_gateway.Codex.Unary.{
  CodexBackendEvent, CodexUnaryDecoded, read_backend_events_to_completion, read_events, read_event,
  decoded, read_named,
}
use cld_gateway.Codex.Unary.Broken.{broken_refused}
use cld_gateway.Codex.Unary.Laws.{IsResponse, read-IsClean}
use cld_gateway.Codex.Types.{local_shell, as_str, from_str, from_str-as_str}

from_str-as_str_example : from_str (as_str local_shell) ≡ some local_shell
from_str-as_str_example = from_str-as_str local_shell

-- Every text is a delta of "hi".
abbrev a_serde : Serde
a_serde = record {
  parse = λ t. some (object (field "delta" (string "hi") end));
  parse_error = λ t. "refused";
  print = λ j. some "{}";
  decode_completed = λ j. none;
}

abbrev two_deltas : List (Result String CodexBackendEvent)
two_deltas =
    ok (record { event = "response.output_text.delta"; data' = "x" })
    ∷ ok (record { event = "response.output_text.delta"; data' = "y" })
    ∷ []

abbrev twice_hi : CodexUnaryDecoded
twice_hi = record {
  final_text = "hihi";
  response_id = none;
  backend_model = none;
  token_usage = none;
  output_items = [];
  tool_calls = [];
}

two_deltas_read : read_backend_events_to_completion a_serde two_deltas ≡ ok twice_hi
unfolding read_backend_events_to_completion read_events read_event decoded read_named trim
    parse_backend_failure_event extract_text_from_data extract_last_text_from_value get_field
two_deltas_read = refl

read-IsClean_example : IsResponse a_serde twice_hi
read-IsClean_example = read-IsClean a_serde two_deltas two_deltas_read

broken_refused_example : ¬ (
    read_backend_events_to_completion a_serde (two_deltas ++ err "reset" ∷ two_deltas)
    ≡ ok twice_hi)
broken_refused_example = broken_refused a_serde "reset" two_deltas two_deltas twice_hi
