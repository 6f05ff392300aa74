-- ===== src/Bridge/Protocol/Completed.antt =====
-- `response.completed`: the arguments of the tool calls, and the end of the message.
use cld_gateway.Base.{
  ℕ, ◌≤◌, String, ◌≡◌, refl, ap, ◌∙◌, subst, Bool, true, Option, some, List, [], ◌∷◌, length,
  get_elem?, insert_by, sort_by, inl, inr, Bool-cases,
}
use cld_gateway.Base.Dict.{Dict}
use cld_gateway.Base.Result.{Result, ok, err}
use cld_gateway.Json.{Fields}
use cld_gateway.Codex.Types.{CodexTokenUsage}
use cld_gateway.Codex.Serde.{Serde}
use cld_gateway.Codex.Completed.{u32_max, extract_usage_from_completed_event}
use cld_gateway.ToolArgs.{PolicyEdit}
use cld_gateway.Bridge.Event.{Event, error_event}
use cld_gateway.Bridge.State.{StreamState}
use cld_gateway.Bridge.WebSearch.{web_search_calls_from_completed}
use cld_gateway.Bridge.Complete.{
  emit_calls, by_index, args_event, tool_args_event, tool_args_events, prepend,
  flush_structured_output, handle_completed, tool_args_delta_from_object, with_searches,
}
use cld_gateway.Bridge.Protocol.{Client, client_run, decode, delta, all_closed}
use cld_gateway.Bridge.Protocol.Tracks.{Follows, AllOpen, client_run-append, delta_accepted}
use cld_gateway.Bridge.Protocol.Decoding.{decode-delta_input_json}
use cld_gateway.Bridge.Protocol.Finish.{finalize_message-ended}

AllOpen-insert_by :
    (flags : List Bool) (t : String × ℕ) (tools : Dict ℕ)
    → get_elem? flags t.1 ≡ some true
    → AllOpen flags tools
    → AllOpen flags (insert_by by_index t tools)
unfolding insert_by
AllOpen-insert_by flags t [] o h = (o, tt)
AllOpen-insert_by flags t (u ∷ tools) o h = elim (Bool-cases (by_index t u)) [
  | inl first ↦ rw first (o, h)
  | inr later ↦ rw later (h.0, AllOpen-insert_by flags t tools o h.1)
]

AllOpen-sort_by :
    (flags : List Bool) (tools : Dict ℕ)
    → AllOpen flags tools
    → AllOpen flags (sort_by by_index tools)
unfolding sort_by
AllOpen-sort_by flags [] h = tt
AllOpen-sort_by flags (t ∷ tools) h =
    AllOpen-insert_by flags t (sort_by by_index tools) h.0 (AllOpen-sort_by flags tools h.1)

args_event_decoded :
    (S : Serde) (i : ℕ) (r : Result String (Fields × List PolicyEdit)) (e : Event)
    → args_event S i r ≡ ok e
    → decode e ≡ delta i
unfolding tool_args_delta_from_object
args_event_decoded S i (err m) e h = cc
args_event_decoded S i (ok (obj, edits)) e h =
    let same : tool_args_delta_from_object S i obj ≡ e = cc in
    subst (λ x. decode x ≡ delta i) same (decode-delta_input_json i _)

prepend_ok :
    (S : Serde) (r : Result String Event) (rest : Result String (List Event)) (args : List Event)
    → prepend S r rest ≡ ok args
    → (e : Event) × (es : List Event) × (r ≡ ok e) × (rest ≡ ok es) × (e ∷ es ≡ args)
prepend_ok S (err m) rest args h = cc
prepend_ok S (ok e) (err m) args h = cc
prepend_ok S (ok e) (ok es) args h = (e, es, refl, refl, cc)

-- The counted tokens do not matter to the arguments.
usage_ignored :
    (S : Serde) (st : StreamState) (u : Option CodexTokenUsage) (tools : Dict ℕ)
    → tool_args_events S (record st { completed_usage = u }) tools ≡ tool_args_events S st tools
unfolding tool_args_events
usage_ignored S st u [] = refl
usage_ignored S st u (t ∷ tools) =
    ap (λ r. prepend S (tool_args_event S st t) r) (usage_ignored S st u tools)

module _ (S : Serde) (st : StreamState) {c : Client} (f : Follows st c) where
  -- The state with the tokens that the event counts.
  abbrev pub counted : String → StreamState
  counted data' = record st {
    completed_usage =
        with_searches S (length st.completed_web_search_call_ids)
          (extract_usage_from_completed_event S data');
  }

  -- The arguments are deltas for blocks that are open.
  arguments_run :
      (s : StreamState) (tools : Dict ℕ) (args : List Event)
      → AllOpen c.open_flags tools
      → tool_args_events S s tools ≡ ok args
      → client_run c args ≡ some c
  unfolding tool_args_events client_run
  arguments_run s [] args o h =
      let same : [] ≡ args = cc in subst (λ x. client_run c x ≡ some c) same refl
  arguments_run s (t ∷ tools) args o h =
      let (e, es, one, more, all) =
        prepend_ok S (tool_args_event S s t) (tool_args_events S s tools) args h in
      subst (λ x. client_run c x ≡ some c) all
        (rw (delta_accepted f e t.1 (args_event_decoded S t.1 _ e one) o.0, client_run)
          (arguments_run s tools es o.1 more))

  -- For a state that the reader follows and in which no web search was sent, and a
  -- `response.completed` without web searches: if the arguments of every tool call pass the
  -- policies, and the number of blocks after the text of a structured output is at most the
  -- greatest u32, then what is sent (the arguments, the text, the stops and the end of the
  -- message) is accepted, after which the stream is ended and every block is closed.
  pub handle_completed-ended :
      (data' : String) {args : List Event}
      → st.emitted_web_search_call_ids ≡ []
      → web_search_calls_from_completed S data' ≡ []
      → tool_args_events S st (sort_by by_index st.tool_blocks_by_call_id) ≡ ok args
      → length (flush_structured_output S (record (counted data') { completed = true })).1.blocks
        ≤ u32_max
      → (c' : Client) × (client_run c (handle_completed S st data').0 ≡ some c')
        × (c'.ended ≡ true)
        × (all_closed c'.open_flags ≡ true)
  unfolding handle_completed emit_calls
  handle_completed-ended data' {args} none_sent no_searches passed fits =
      let (c', run, over, closed) = finalize_message-ended S (counted data') f none_sent fits in
      (
        c',
        rw no_searches (
            rw
              (usage_ignored S st (counted data').completed_usage
                (sort_by by_index st.tool_blocks_by_call_id))
              (rw passed (
                client_run-append c args _ (
                  arguments_run st (sort_by by_index st.tool_blocks_by_call_id) args
                    (AllOpen-sort_by c.open_flags st.tool_blocks_by_call_id f.tools_open) passed)
                ∙ run))),
        over,
        closed,
      )

  -- For a state that the reader follows, and a `response.completed` without web searches: if the
  -- arguments of a tool call are refused, then what is sent is accepted and ends the stream, with
  -- the blocks as they were, and whether the state is completed stays as it was.
  pub handle_completed_refused :
      (data' message : String)
      → web_search_calls_from_completed S data' ≡ []
      → tool_args_events S st (sort_by by_index st.tool_blocks_by_call_id) ≡ err message
      → (client_run c (handle_completed S st data').0 ≡ some (record c { ended = true }))
        × ((handle_completed S st data').1.completed ≡ st.completed)
  unfolding handle_completed emit_calls client_run decode error_event
  handle_completed_refused data' message no_searches refused = rw no_searches (
      rw
        (usage_ignored S st (counted data').completed_usage
          (sort_by by_index st.tool_blocks_by_call_id))
        (rw refused (rw f.running refl, refl)))
