-- ===== src/Bridge/Protocol/Stream.antt =====
-- Whole streams of backend events.
use cld_gateway.Base.{
  ◌≤◌, String, ◌≡◌, refl, ◌∙◌, false, Option, none, List, [], ◌∷◌, ◌++◌, arith, length, str_eq, All,
}
use cld_gateway.Codex.Serde.{Serde}
use cld_gateway.Codex.Completed.{u32_max, record_completed_web_search_call_ids}
use cld_gateway.Codex.Failure.{parse_backend_failure_event}
use cld_gateway.Bridge.Event.{Event}
use cld_gateway.Bridge.State.{StreamState}
use cld_gateway.Bridge.Complete.{event_list, map_backend_event}
use cld_gateway.Bridge.Protocol.{Client, client_run}
use cld_gateway.Bridge.Protocol.Tracks.{Follows, Sends, client_run-append}
use cld_gateway.Bridge.Protocol.Dispatch.{map_backend_event-Follows}
use cld_gateway.Bridge.Protocol.Growth.{Grows, dispatch-Grows}

-- The name and the data of a backend event that neither fails nor completes the response.
abbrev pub Continues : Serde → String × String → Type 0
Continues S (event_name, data') =
    (parse_backend_failure_event S event_name data' ≡ none)
    × (str_eq event_name "response.completed" ≡ false)

module _ (S : Serde) (extract : String → Option String) (request_id : Option String) where
  -- The bridge's events for backend events in turn, and the state after them.
  unfoldable pub feed : List (String × String) → StreamState → List Event × StreamState
  feed [] st = ([], st)
  feed ((event_name, data') ∷ rest) st =
      let o = map_backend_event S extract st event_name data' request_id in
      let (events, st') = feed rest o.state in (event_list o.events ++ events, st')

  step-Grows :
      (st : StreamState) (event_name data' : String)
      → Continues S (event_name, data')
      → Grows st (map_backend_event S extract st event_name data' request_id).state
  unfolding map_backend_event
  step-Grows st event_name data' (working, continues) = rw working (
      dispatch-Grows
        (record st {
          completed_web_search_call_ids =
              record_completed_web_search_call_ids S st.completed_web_search_call_ids event_name
                data';
        })
        S extract event_name data' request_id continues)

  feed-Grows :
      (es : List (String × String)) (st : StreamState)
      → All (Continues S) es
      → Grows st (feed es st).1
  unfolding feed
  feed-Grows [] st h = omega arith
  feed-Grows (e ∷ es) st h =
      let o = map_backend_event S extract st e.0 e.1 request_id in
      omega (arith, step-Grows st e.0 e.1 h.0, feed-Grows es o.state h.1)

  -- For a state that the reader follows, and any sequence of backend events of which none is a
  -- failure or `response.completed`: if the number of blocks at the end is at most the greatest
  -- u32, then all that the bridge sends for them, in order, is accepted, and the reader follows
  -- the last state.
  pub feed-Follows :
      (es : List (String × String)) (st : StreamState) {c : Client}
      → Follows st c
      → All (Continues S) es
      → length (feed es st).1.blocks ≤ u32_max
      → Sends (feed es st).1 c (feed es st).0
  unfolding feed client_run
  feed-Follows [] st {c} f h fits = (c, refl, f)
  feed-Follows (e ∷ es) st {c} f h fits =
      let o = map_backend_event S extract st e.0 e.1 request_id in
      let (c1, run, f1) =
        map_backend_event-Follows S extract st f e.0 e.1 request_id h.0.0 h.0.1
          (omega (arith, feed-Grows es o.state h.1, fits)) in
      let (c2, runs, f2) = feed-Follows es o.state f1 h.1 fits in
      (c2, client_run-append c (event_list o.events) _ run ∙ runs, f2)
