-- ===== src/Codex/Unary.antt =====
-- The reading of a whole event stream into one response, in
-- old_rust/crates/gateway-backend-codex/src/sse_unary.rs. The stream is a list of the items that the
-- transport yields: events, or the text of a transport's error.
pub mod Distinct
pub mod Laws
pub mod Broken
use Prim.Native.String.{◌++◌ as append}
use cld_gateway.Base.{
  ℕ, String, Bool, true, false, Option, none, some, List, [], ◌∷◌, ◌++◌, ◌&&◌, ◌||◌, not, str_eq,
  length, if◌then◌else◌, unwrap_or, or_else,
}
use cld_gateway.Base.Result.{Result, ok, err}
use cld_gateway.Base.Text.{trim, is_empty}
use cld_gateway.Json.{Json, get, as_array}
use cld_gateway.Codex.Types.{CodexTokenUsage, CodexToolCall}
use cld_gateway.Codex.Serde.{Serde}
use cld_gateway.Codex.ToolCalls.{◌>>=◌, parse_output_item_tool_call}
use cld_gateway.Codex.OutputText.{extract_text_from_data, parse_output_item_message_texts}
use cld_gateway.Codex.Failure.{parse_backend_failure_event}
use cld_gateway.Codex.Completed.{
  contains, extract_usage_from_completed_event, extract_response_id_from_completed_event,
  record_completed_web_search_call_ids, saturating_u32_len,
}

pub record CodexBackendEvent : Type 0 where
  pub event : String
  pub data' : String

pub record CodexUnaryDecoded : Type 0 where
  pub final_text : String
  pub response_id : Option String
  pub backend_model : Option String
  pub token_usage : Option CodexTokenUsage
  pub output_items : List Json
  pub tool_calls : List CodexToolCall

pub data SseDecodeError : Type 0 where
  event_stream backend_failed no_final_text : String → SseDecodeError

-- The variables of the loop.
pub record Reading : Type 0 where
  pub final_text : String
  pub fallback_text : Option String
  pub saw_output_text_delta : Bool
  pub tool_calls : List CodexToolCall
  pub output_items : List Json
  pub output_item_fingerprints : List String
  pub last_usage : Option CodexTokenUsage
  pub last_response_id : Option String
  pub web_search_call_ids : List String
  pub seen_events : List String

abbrev pub initial : Reading
initial = record {
  final_text = "";
  fallback_text = none;
  saw_output_text_delta = false;
  tool_calls = [];
  output_items = [];
  output_item_fingerprints = [];
  last_usage = none;
  last_response_id = none;
  web_search_call_ids = [];
  seen_events = [];
}

abbrev pub is_tool_input_delta_event : String → Bool
is_tool_input_delta_event event_name =
    str_eq event_name "response.function_call_arguments.delta"
    || str_eq event_name "response.custom_tool_call_input.delta"

unfoldable pub record_seen_event : String → List String → List String
record_seen_event event_name seen =
    if contains seen event_name then seen else seen ++ event_name ∷ []

-- The first call with the same id is replaced; without one, the call is appended.
unfoldable pub upsert_tool_call : CodexToolCall → List CodexToolCall → List CodexToolCall
upsert_tool_call call [] = call ∷ []
upsert_tool_call call (x ∷ xs) =
    if str_eq x.call_id call.call_id then call ∷ xs else x ∷ upsert_tool_call call xs

-- An item whose print is known is not taken again; one that is not printed, not at all.
abbrev pub append_printed : Option String → Json → Reading → Reading
append_printed none item r = r
append_printed (some fingerprint) item r =
    if contains r.output_item_fingerprints fingerprint then r else record r {
      output_item_fingerprints = r.output_item_fingerprints ++ fingerprint ∷ [];
      output_items = r.output_items ++ item ∷ [];
    }

abbrev pub push_text : String → Reading → Reading
push_text text r = record r { final_text = append r.final_text text }

abbrev pub push_texts : List String → Reading → Reading
push_texts [] r = r
push_texts (t ∷ ts) r = push_texts ts (push_text t r)

-- "response.output_text.delta"
abbrev pub push_delta : Option String → Reading → Reading
push_delta none r = r
push_delta (some text) r = record (push_text text r) { saw_output_text_delta = true }

-- "response.output_text.done"
abbrev pub push_done : Option String → Reading → Reading
push_done none r = r
push_done (some text) r = if r.saw_output_text_delta then r else push_text text r

abbrev pub upsert : Option CodexToolCall → Reading → Reading
upsert none r = r
upsert (some call) r = record r { tool_calls = upsert_tool_call call r.tool_calls }

abbrev pub fall_back : Option String → Reading → Reading
fall_back none r = r
fall_back (some text) r = record r { fallback_text = some text }

abbrev pub or_last_usage : Option CodexTokenUsage → Reading → Reading
or_last_usage none r = r
or_last_usage (some usage) r = record r { last_usage = some usage }

abbrev pub then_read {ℓ} :
    {A : Type ℓ}
    → Result SseDecodeError Reading
    → (Reading → Result SseDecodeError A)
    → Result SseDecodeError A
then_read (err e) next = err e
then_read (ok r) next = next r

module _ (S : Serde) where
  unfoldable pub append_unique_output_item : Json → Reading → Reading
  append_unique_output_item item r = append_printed (S.print item) item r

  unfoldable pub append_unique_output_items : List Json → Reading → Reading
  append_unique_output_items [] r = r
  append_unique_output_items (x ∷ xs) r =
      append_unique_output_items xs (append_unique_output_item x r)

  abbrev pub append_item_of : Option Json → Reading → Reading
  append_item_of none r = r
  append_item_of (some item) r = append_unique_output_item item r

  unfoldable pub collect_output_item : String → String → Reading → Reading
  collect_output_item event_name data' r =
      if not (str_eq event_name "response.output_item.done")
      then r
      else append_item_of (S.parse data' >>= get "item") r

  unfoldable pub collect_completed_output_items : String → Reading → Reading
  collect_completed_output_items data' r =
      append_unique_output_items
        (unwrap_or (S.parse data' >>= get "response" >>= get "output" >>= as_array) []) r

  abbrev pub output_item_texts : String → String → Reading → Reading
  output_item_texts event_name data' r =
      if r.saw_output_text_delta
      then r
      else push_texts (parse_output_item_message_texts S event_name data') r

  -- The last branch of the `match` on the event's name.
  abbrev pub other_event : String → String → Reading → Reading
  other_event event_name data' r =
      if str_eq event_name "response.completed"
      then collect_completed_output_items data' r
      else if is_tool_input_delta_event event_name
      then r
      else fall_back (extract_text_from_data S data') r

  unfoldable pub read_named : String → String → Reading → Reading
  read_named event_name data' r =
      if str_eq event_name "response.output_text.delta"
      then push_delta (extract_text_from_data S data') r
      else if str_eq event_name "response.output_text.done"
      then push_done (extract_text_from_data S data') r
      else if str_eq event_name "response.output_item.added"
          || str_eq event_name "response.output_item.done"
      then output_item_texts event_name data' (
          upsert (parse_output_item_tool_call S event_name data')
            (collect_output_item event_name data' r))
      else other_event event_name data' r

  -- What is read before the `match`.
  abbrev pub read_completed : String → String → Reading → Reading
  read_completed event_name data' r =
      if str_eq event_name "response.completed"
      then record (or_last_usage (extract_usage_from_completed_event S data') r) {
        last_response_id = extract_response_id_from_completed_event S data';
      }
      else r

  abbrev pub record_ids : String → String → Reading → Reading
  record_ids event_name data' r = record r {
    web_search_call_ids =
        record_completed_web_search_call_ids S r.web_search_call_ids event_name data';
  }

  abbrev pub unless_backend_failed :
      Option String → String → String → Reading → Result SseDecodeError Reading
  unless_backend_failed (some message) event_name data' r = err (backend_failed message)
  unless_backend_failed none event_name data' r = ok (
      read_named event_name data' (record_ids event_name data' (read_completed event_name data' r)))

  -- One event, with its trimmed data.
  unfoldable pub read_event : String → String → Reading → Result SseDecodeError Reading
  read_event event_name data' r =
      let seen = record r { seen_events = record_seen_event event_name r.seen_events } in
      if is_empty data'
      then ok seen
      else if str_eq data' "[DONE]"
      then ok seen
      else unless_backend_failed (parse_backend_failure_event S event_name data') event_name data'
          seen

  unfoldable pub read_events :
      List (Result String CodexBackendEvent) → Reading → Result SseDecodeError Reading
  read_events [] r = ok r
  read_events (err message ∷ items) r = err (event_stream message)
  read_events (ok event ∷ items) r =
      then_read (read_event event.event (trim event.data') r) (read_events items)

abbrev pub joined : List String → String
joined [] = ""
joined (s ∷ []) = s
joined (s ∷ t ∷ ss) = append s (append "," (joined (t ∷ ss)))

abbrev pub no_calls : List CodexToolCall → Bool
no_calls [] = true
no_calls (c ∷ cs) = false

abbrev pub counted_usage : ℕ → Option CodexTokenUsage → Option CodexTokenUsage
counted_usage n none = none
counted_usage n (some usage) = some (record usage { web_search_requests = saturating_u32_len n })

abbrev pub text_or_fallback : Reading → String
text_or_fallback r = if is_empty r.final_text then unwrap_or r.fallback_text "" else r.final_text

-- What follows the loop.
unfoldable pub decoded : Reading → Result SseDecodeError CodexUnaryDecoded
decoded r =
    if is_empty (text_or_fallback r) && no_calls r.tool_calls
    then err (no_final_text (joined r.seen_events))
    else ok (record {
      final_text = text_or_fallback r;
      response_id = r.last_response_id;
      backend_model = none;
      token_usage = counted_usage (length r.web_search_call_ids) r.last_usage;
      output_items = r.output_items;
      tool_calls = r.tool_calls;
    })

unfoldable pub read_backend_events_to_completion :
    Serde → List (Result String CodexBackendEvent) → Result SseDecodeError CodexUnaryDecoded
read_backend_events_to_completion S items = then_read (read_events S items initial) decoded
