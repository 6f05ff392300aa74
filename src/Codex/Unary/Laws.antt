-- ===== src/Codex/Unary/Laws.antt =====
-- What a response that was read holds.
use cld_gateway.Base.{
  String, ◌≡◌, refl, ap, sym, ◌∙◌, subst, Bool, true, false, Option, none, some, List, [], ◌∷◌,
  ◌++◌, ◌&&◌, ◌||◌, not, str_eq, map, if◌then◌else◌, if_holds, inl, inr, ◌⊎◌, Bool-cases, unwrap_or,
}
use cld_gateway.Base.Result.{Result, ok, err}
use cld_gateway.Base.Text.{trim, is_empty}
use cld_gateway.Json.{Json, get, as_array}
use cld_gateway.Codex.Types.{CodexTokenUsage, CodexToolCall}
use cld_gateway.Codex.Serde.{Serde}
use cld_gateway.Codex.ToolCalls.{◌>>=◌, parse_output_item_tool_call}
use cld_gateway.Codex.OutputText.{extract_text_from_data, parse_output_item_message_texts}
use cld_gateway.Codex.Failure.{parse_backend_failure_event}
use cld_gateway.Codex.Completed.{contains, extract_usage_from_completed_event}
use cld_gateway.Codex.Unary.{
  CodexBackendEvent, CodexUnaryDecoded, SseDecodeError, Reading, initial, append_printed,
  push_texts, push_delta, push_done, upsert, fall_back, or_last_usage, then_read,
  append_unique_output_item, append_unique_output_items, append_item_of, collect_output_item,
  collect_completed_output_items, output_item_texts, read_named, read_completed, record_ids,
  unless_backend_failed, read_event, read_events, no_calls, text_or_fallback, decoded,
  read_backend_events_to_completion, is_tool_input_delta_event, record_seen_event, push_text,
}
use cld_gateway.Codex.Unary.Distinct.{Distinct, Distinct-append, call_ids, Distinct-upsert}

-- The calls have distinct ids, and the output items are those of the prints, which are distinct.
pub record IsClean (S : Serde) (r : Reading) : Type 0 where
  pub calls : Distinct (call_ids r.tool_calls)
  pub prints : Distinct r.output_item_fingerprints
  pub printed : map S.print r.output_items ≡ map some r.output_item_fingerprints

map-snoc :
    {A B : Type 0} (f : A → B) (xs : List A) (x : A) → map f (xs ++ x ∷ []) ≡ map f xs ++ f x ∷ []
map-snoc f [] x = refl
map-snoc f (y ∷ xs) x = ap (λ r. f y ∷ r) (map-snoc f xs x)

module _ (S : Serde) where
  -- A change of the other variables.
  same-IsClean :
      (r r' : Reading)
      → r'.tool_calls ≡ r.tool_calls
      → r'.output_item_fingerprints ≡ r.output_item_fingerprints
      → r'.output_items ≡ r.output_items
      → IsClean S r
      → IsClean S r'
  same-IsClean r r' calls prints items c = record {
    calls = rw calls c.calls;
    prints = rw prints c.prints;
    printed = rw items (rw prints c.printed);
  }

  append-IsClean :
      (o : Option String) (item : Json) (r : Reading)
      → S.print item ≡ o
      → IsClean S r
      → IsClean S (append_printed o item r)
  append-IsClean none item r e c = c
  append-IsClean (some print) item r e c =
      elim (Bool-cases (contains r.output_item_fingerprints print)) [
        | inl known ↦ rw known c
        | inr new ↦ rw new (record {
          calls = c.calls;
          prints = Distinct-append r.output_item_fingerprints print c.prints new;
          printed =
              map-snoc S.print r.output_items item
              ∙ ap (λ l. l ++ S.print item ∷ []) c.printed
              ∙ ap (λ p. map some r.output_item_fingerprints ++ p ∷ []) e
              ∙ sym (map-snoc some r.output_item_fingerprints print);
        })
      ]

  append_items-IsClean :
      (items : List Json) (r : Reading)
      → IsClean S r
      → IsClean S (append_unique_output_items S items r)
  unfolding append_unique_output_items append_unique_output_item
  append_items-IsClean [] r c = c
  append_items-IsClean (x ∷ xs) r c =
      append_items-IsClean xs _ (append-IsClean (S.print x) x r refl c)

  append_item_of-IsClean :
      (o : Option Json) (r : Reading) → IsClean S r → IsClean S (append_item_of S o r)
  unfolding append_unique_output_item
  append_item_of-IsClean none r c = c
  append_item_of-IsClean (some item) r c = append-IsClean (S.print item) item r refl c

  push_texts-IsClean : (ts : List String) (r : Reading) → IsClean S r → IsClean S (push_texts ts r)
  push_texts-IsClean [] r c = c
  push_texts-IsClean (t ∷ ts) r c =
      push_texts-IsClean ts (push_text t r) (same-IsClean r _ refl refl refl c)

  push_delta-IsClean : (o : Option String) (r : Reading) → IsClean S r → IsClean S (push_delta o r)
  push_delta-IsClean none r c = c
  push_delta-IsClean (some t) r c = same-IsClean r _ refl refl refl c

  push_done-IsClean : (o : Option String) (r : Reading) → IsClean S r → IsClean S (push_done o r)
  push_done-IsClean none r c = c
  push_done-IsClean (some t) r c =
      if_holds (IsClean S) r.saw_output_text_delta (λ _. c)
        (λ _. same-IsClean r (push_text t r) refl refl refl c)

  upsert-IsClean : (o : Option CodexToolCall) (r : Reading) → IsClean S r → IsClean S (upsert o r)
  upsert-IsClean none r c = c
  upsert-IsClean (some call) r c = record {
    calls = Distinct-upsert call r.tool_calls c.calls;
    prints = c.prints;
    printed = c.printed;
  }

  fall_back-IsClean : (o : Option String) (r : Reading) → IsClean S r → IsClean S (fall_back o r)
  fall_back-IsClean none r c = c
  fall_back-IsClean (some t) r c = same-IsClean r _ refl refl refl c

  usage-IsClean :
      (o : Option CodexTokenUsage) (r : Reading) → IsClean S r → IsClean S (or_last_usage o r)
  usage-IsClean none r c = c
  usage-IsClean (some u) r c = same-IsClean r _ refl refl refl c

  read_named-IsClean :
      (event_name data' : String) (r : Reading)
      → IsClean S r
      → IsClean S (read_named S event_name data' r)
  unfolding read_named collect_output_item collect_completed_output_items
  read_named-IsClean event_name data' r c =
      if_holds (IsClean S) (str_eq event_name "response.output_text.delta")
        (λ _. push_delta-IsClean (extract_text_from_data S data') r c)
        (λ _.
          if_holds (IsClean S) (str_eq event_name "response.output_text.done")
            (λ _. push_done-IsClean (extract_text_from_data S data') r c)
            (λ _.
              if_holds (IsClean S)
                (str_eq event_name "response.output_item.added"
                  || str_eq event_name "response.output_item.done")
                (λ _.
                  output_item_texts-IsClean _
                    (upsert-IsClean (parse_output_item_tool_call S event_name data') _ collected))
                (λ _.
                  if_holds (IsClean S) (str_eq event_name "response.completed")
                    (λ _.
                      append_items-IsClean
                        (unwrap_or (S.parse data' >>= get "response" >>= get "output" >>= as_array)
                          [])
                        r c)
                    (λ _.
                      if_holds (IsClean S) (is_tool_input_delta_event event_name) (λ _. c)
                        (λ _. fall_back-IsClean (extract_text_from_data S data') r c)))))
    where
      collected : IsClean S (collect_output_item S event_name data' r)
      collected =
          if_holds (IsClean S) (not (str_eq event_name "response.output_item.done")) (λ _. c)
            (λ _. append_item_of-IsClean (S.parse data' >>= get "item") r c)

      output_item_texts-IsClean :
          (q : Reading) → IsClean S q → IsClean S (output_item_texts S event_name data' q)
      output_item_texts-IsClean q d =
          if_holds (IsClean S) q.saw_output_text_delta (λ _. d)
            (λ _. push_texts-IsClean (parse_output_item_message_texts S event_name data') q d)

  read_completed-IsClean :
      (event_name data' : String) (r : Reading)
      → IsClean S r
      → IsClean S (read_completed S event_name data' r)
  read_completed-IsClean event_name data' r c =
      if_holds (IsClean S) (str_eq event_name "response.completed")
        (λ _.
          same-IsClean (or_last_usage (extract_usage_from_completed_event S data') r) _ refl refl
            refl (usage-IsClean (extract_usage_from_completed_event S data') r c))
        (λ _. c)

  -- If the event is read, the invariant holds after it.
  abbrev CleanIf : Result SseDecodeError Reading → Type 0
  CleanIf (err e) = Unit
  CleanIf (ok r) = IsClean S r

  unless_failed-CleanIf :
      (o : Option String) (event_name data' : String) (r : Reading)
      → IsClean S r
      → CleanIf (unless_backend_failed S o event_name data' r)
  unless_failed-CleanIf (some message) event_name data' r c = tt
  unless_failed-CleanIf none event_name data' r c = read_named-IsClean event_name data' _ (
      same-IsClean (read_completed S event_name data' r)
        (record_ids S event_name data' (read_completed S event_name data' r)) refl refl refl
        (read_completed-IsClean event_name data' r c))

  read_event-CleanIf :
      (event_name data' : String) (r : Reading)
      → IsClean S r
      → CleanIf (read_event S event_name data' r)
  unfolding read_event
  read_event-CleanIf event_name data' r c =
      let seen : Reading = record r { seen_events = record_seen_event event_name r.seen_events } in
      let d = same-IsClean r seen refl refl refl c in
      if_holds CleanIf (is_empty data') (λ _. d)
        (λ _.
          if_holds CleanIf (str_eq data' "[DONE]") (λ _. d)
            (λ _.
              unless_failed-CleanIf (parse_backend_failure_event S event_name data') event_name
                data' seen d))

  then_read-CleanIf :
      (r : Result SseDecodeError Reading) (next : Reading → Result SseDecodeError Reading)
      → CleanIf r
      → ((q : Reading) → IsClean S q → CleanIf (next q))
      → CleanIf (then_read r next)
  then_read-CleanIf (err e) next c keep = tt
  then_read-CleanIf (ok r) next c keep = keep r c

  read_events-CleanIf :
      (items : List (Result String CodexBackendEvent)) (r : Reading)
      → IsClean S r
      → CleanIf (read_events S items r)
  unfolding read_events
  read_events-CleanIf [] r c = c
  read_events-CleanIf (err message ∷ items) r c = tt
  read_events-CleanIf (ok event ∷ items) r c =
      then_read-CleanIf (read_event S event.event (trim event.data') r) (read_events S items)
        (read_event-CleanIf event.event (trim event.data') r c) (λ q. read_events-CleanIf items q)

  -- What a caller of the function relies on.
  abbrev pub IsResponse : CodexUnaryDecoded → Type 0
  IsResponse d =
      Distinct (call_ids d.tool_calls)
      × ((prints : List String) × Distinct prints × (map S.print d.output_items ≡ map some prints))
      × ((is_empty d.final_text ≡ false) ⊎ (no_calls d.tool_calls ≡ false))

  not_both : (a b : Bool) → (a && b) ≡ false → (a ≡ false) ⊎ (b ≡ false)
  not_both false b h = inl refl
  not_both true b h = inr h

  unless_taken :
      (e : SseDecodeError) {x d : CodexUnaryDecoded} (b : Bool)
      → (if b then err e else ok x) ≡ ok d
      → (b ≡ false) × (x ≡ d)
  unless_taken e true h = cc
  unless_taken e false h = (refl, cc)

  decoded-IsResponse :
      {d : CodexUnaryDecoded} (r : Reading) → IsClean S r → decoded r ≡ ok d → IsResponse d
  unfolding decoded
  decoded-IsResponse r c k =
      let taken = unless_taken _ (is_empty (text_or_fallback r) && no_calls r.tool_calls) k in
      subst IsResponse taken.1 (
        c.calls,
        (r.output_item_fingerprints, c.prints, c.printed),
        not_both (is_empty (text_or_fallback r)) (no_calls r.tool_calls) taken.0,
      )

  -- If the reading of a whole event stream succeeds, then the tool calls have distinct ids, the
  -- output items print to distinct texts, and the response has a text or a tool call.
  pub read-IsClean :
      (items : List (Result String CodexBackendEvent)) {d : CodexUnaryDecoded}
      → read_backend_events_to_completion S items ≡ ok d
      → IsResponse d
  unfolding read_backend_events_to_completion
  read-IsClean items h =
      from_loop (read_events S items initial)
        (read_events-CleanIf items initial (record { calls = tt; prints = tt; printed = refl })) h
    where
      from_loop :
          {d : CodexUnaryDecoded} (r : Result SseDecodeError Reading)
          → CleanIf r
          → then_read r decoded ≡ ok d
          → IsResponse d
      from_loop (err e) c k = cc
      from_loop (ok r) c k = decoded-IsResponse r c k
