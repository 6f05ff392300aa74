-- ===== src/Codex/Completed.antt =====
-- The parts of old_rust/crates/gateway-backend-codex/src/sse_unary.rs that read a completed
-- response: its usage, its id and the web searches that it made.
use Prim.Native.String.{◌++◌ as append}
use cld_gateway.Base.{
  ℕ, suc, String, Bool, false, Option, none, some, List, [], ◌∷◌, ◌++◌, str_eq, ◌||◌, not, opt_eq,
  if◌then◌else◌, unwrap_or, or_else, leb, ◌^◌, ◌-◌,
}
use cld_gateway.Base.Int.{pos, saturating_add}
use cld_gateway.Base.Text.{decimal}
use cld_gateway.Json.{Json, get, as_str, as_u64, as_array}
use cld_gateway.Codex.Types.{CodexTokenUsage}
use cld_gateway.Codex.Serde.{Serde, CompletedUsage}
use cld_gateway.Codex.ToolCalls.{◌>>=◌, get_str, pointer}

abbrev pub usage_of : CompletedUsage → CodexTokenUsage
usage_of u = record {
  input_tokens = u.input_tokens;
  cached_input_tokens = unwrap_or u.input_tokens_details (pos 0);
  output_tokens = u.output_tokens;
  reasoning_output_tokens = unwrap_or u.output_tokens_details (pos 0);
  total_tokens = unwrap_or u.total_tokens (saturating_add u.input_tokens u.output_tokens);
  web_search_requests = 0;
}

unfoldable pub extract_usage_from_completed_event : Serde → String → Option CodexTokenUsage
extract_usage_from_completed_event S data' = do
  value ← S.parse data'
  env ← S.decode_completed value
  response ← env.response
  usage ← response.usage
  some (usage_of usage)

unfoldable pub extract_response_id_from_completed_event : Serde → String → Option String
extract_response_id_from_completed_event S data' = do
  value ← S.parse data'
  env ← S.decode_completed value
  response ← env.response
  response.id

-- `get("id")`, else `get("call_id")`, else `get("item_id")`, as a text.
unfoldable pub own_call_id : Json → Option String
own_call_id value =
    or_else (get "id" value) (or_else (get "call_id" value) (get "item_id" value)) >>= as_str

-- `output_index`, behind the name of the event.
unfoldable pub indexed_call_id : String → Json → Option String
indexed_call_id event_name value = do
  index ← get "output_index" value >>= as_u64
  some (append event_name (append ":" (decimal index)))

unfoldable pub event_web_search_call_id : Json → String → Option String
event_web_search_call_id event fallback =
    if not (opt_eq (get_str "type" event) (some fallback))
    then none
    else some (unwrap_or (or_else (own_call_id event) (indexed_call_id fallback event)) fallback)

-- A status, where there is one, is `completed`.
abbrev pub is_unfinished : Option String → Bool
is_unfinished none = false
is_unfinished (some status) = not (str_eq status "completed")

unfoldable pub completed_web_search_call_id : Json → String → Option String
completed_web_search_call_id item fallback =
    if not (opt_eq (get_str "type" item) (some "web_search_call"))
    then none
    else if is_unfinished (get_str "status" item)
    then none
    else some (unwrap_or (own_call_id item) fallback)

abbrev pub option_list {ℓ} : {A : Type ℓ} → Option A → List A
option_list none = []
option_list (some a) = a ∷ []

-- `response_output_{index}`.
unfoldable pub output_fallback : ℕ → String
output_fallback index = append "response_output_" (decimal index)

-- `enumerate` with `filter_map`, from an index on.
unfoldable pub indexed_filter_map {ℓ} :
    {A : Type ℓ} → (ℕ → Json → Option A) → ℕ → List Json → List A
indexed_filter_map f i [] = []
indexed_filter_map f i (x ∷ xs) = option_list (f i x) ++ indexed_filter_map f (suc i) xs

-- `pointer("/response/output")` as a list, empty where there is none.
unfoldable pub response_output : Json → List Json
response_output value = unwrap_or (pointer "response" "output" value >>= as_array) []

abbrev pub call_ids_of : String → Json → List String
call_ids_of event_name value =
    if str_eq event_name "response.output_item.done"
    then option_list (get "item" value >>= λ item. completed_web_search_call_id item "output_item")
    else if str_eq event_name "response.web_search_call.completed"
    then option_list (event_web_search_call_id value event_name)
    else if str_eq event_name "response.completed"
    then indexed_filter_map (λ i item. completed_web_search_call_id item (output_fallback i)) 0
        (response_output value)
    else []

abbrev pub parsed_call_ids : String → Option Json → List String
parsed_call_ids event_name none = []
parsed_call_ids event_name (some value) = call_ids_of event_name value

unfoldable pub completed_web_search_call_ids : Serde → String → String → List String
completed_web_search_call_ids S event_name data' = parsed_call_ids event_name (S.parse data')

unfoldable pub contains : List String → String → Bool
contains [] s = false
contains (x ∷ xs) s = str_eq x s || contains xs s

-- `BTreeSet::insert`.
unfoldable pub insert_id : String → List String → List String
insert_id s ids = if contains ids s then ids else ids ++ s ∷ []

unfoldable pub insert_ids : List String → List String → List String
insert_ids [] ids = ids
insert_ids (s ∷ more) ids = insert_ids more (insert_id s ids)

unfoldable pub record_completed_web_search_call_ids :
    Serde → List String → String → String → List String
record_completed_web_search_call_ids S ids event_name data' =
    insert_ids (completed_web_search_call_ids S event_name data') ids

abbrev pub u32_max : ℕ
u32_max = 2 ^ 32 - 1

-- `u32::try_from(len).unwrap_or(u32::MAX)`.
unfoldable pub saturating_u32_len : ℕ → ℕ
saturating_u32_len len = if leb len u32_max then len else u32_max
