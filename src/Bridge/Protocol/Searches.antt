-- ===== src/Bridge/Protocol/Searches.antt =====
-- The events of web-search calls are accepted: each call is two blocks that open and close.
use cld_gateway.Base.{
  ℕ, ◌≤◌, String, ◌≡◌, refl, true, false, Option, some, List, [], ◌∷◌, ◌++◌, arith, length,
  length-append, set-append, inl, inr, Bool-cases,
}
use cld_gateway.Base.Dict.{Dict}
use cld_gateway.Codex.Completed.{u32_max, contains}
use cld_gateway.Bridge.Event.{Event, content_block_stop}
use cld_gateway.Bridge.State.{StreamState, BlockState, next_index}
use cld_gateway.Bridge.WebSearch.{WebSearchCall, call_events, emit_web_search_call_blocks}
use cld_gateway.Bridge.Complete.{event_list}
use cld_gateway.Bridge.Protocol.{Client, client_step, client_run, decode, start}
use cld_gateway.Bridge.Protocol.Tracks.{
  Tracks, Follows, Sends, added, opened, opened-Tracks, opened_at_next, start_accepted,
  OpenAt-append, AllOpen-append,
}
use cld_gateway.Bridge.Protocol.Decoding.{
  decode-stop, decode-start_server_tool_use, decode-start_web_search_tool_result,
}

append_one : (ids : List String) (id : String) → ids ++ id ∷ [] ≡ [] → ⊥
append_one [] id e = cc
append_one (x ∷ ids) id e = cc

-- The reader after a block that opened and closed.
abbrev pub shut : Client → Client
shut c = record c { open_flags = c.open_flags ++ false ∷ [] }

module _ {searched : List String} {next : ℕ} {blocks : List BlockState} {text thinking : Option ℕ}
    {tools : Dict ℕ} {c : Client} (t : Tracks searched next blocks text thinking tools c) where
  module _ (fits : length (added blocks next) ≤ u32_max) where
    pub shut-Tracks :
        (ids : List String) (id : String)
        → Tracks (ids ++ id ∷ []) (next_index next) (added blocks next) text thinking tools (shut c)
    shut-Tracks ids id =
        let o = opened-Tracks t fits in
        record {
          running = t.running;
          started = omega (
            arith,
            length-append c.open_flags (false ∷ []),
            length-append c.open_flags (true ∷ []),
            o.started,
          );
          counted = o.counted;
          indexed = o.indexed;
          text_open = OpenAt-append c.open_flags _ text t.text_open;
          thinking_open = OpenAt-append c.open_flags _ thinking t.thinking_open;
          tools_open = AllOpen-append c.open_flags _ tools t.tools_open;
          exactly = λ e. absurd (append_one ids id e);
        }

    -- The stop of the block that has just been started.
    stop_opened : client_step (opened c) (content_block_stop next) ≡ some (shut c)
    stop_opened = ground (
      arith,
      decode-stop next,
      t.running,
      opened_at_next t,
      t.counted,
      t.started,
      set-append c.open_flags true [] false,
    )

    pub start_stop_run :
        (e : Event) (es : List Event)
        → decode e ≡ start next
        → client_run c (e ∷ content_block_stop next ∷ es) ≡ client_run (shut c) es
    unfolding client_run
    start_stop_run e es d = rw (start_accepted t e d, client_run) (rw (stop_opened, client_run))

module _ (st : StreamState) {c : Client} (f : Follows st c) where
  pub one_fits :
      length (added (added st.blocks st.next_block_index) (next_index st.next_block_index))
        ≤ u32_max
      → length (added st.blocks st.next_block_index) ≤ u32_max
  one_fits fits = omega (
    arith,
    length-append (added st.blocks st.next_block_index)
        (record { index = next_index st.next_block_index; closed = false } ∷ []),
    fits,
  )

  -- The two blocks of a call, which open and close in turn.
  pub call_events_run :
      (call : WebSearchCall)
      → length (added (added st.blocks st.next_block_index) (next_index st.next_block_index))
        ≤ u32_max
      → client_run c (call_events call st.next_block_index (next_index st.next_block_index))
        ≡ some (shut (shut c))
  unfolding client_run
  call_events_run call fits =
      let n = st.next_block_index in
      let t = shut-Tracks f (one_fits fits) [] call.call_id in
      rw
        (start_stop_run f (one_fits fits) _ _
          (decode-start_server_tool_use n call.server_tool_use_id call.query))
        (rw
          (start_stop_run t fits _ [] (
            decode-start_web_search_tool_result (next_index n) call.server_tool_use_id
              call.results))
          refl)

  pub call_Tracks :
      (call : WebSearchCall)
      → length (added (added st.blocks st.next_block_index) (next_index st.next_block_index))
        ≤ u32_max
      → Tracks
          (st.emitted_web_search_call_ids ++ call.call_id ∷ [])
          (next_index (next_index st.next_block_index))
          (added (added st.blocks st.next_block_index) (next_index st.next_block_index))
          st.active_text_index
          st.active_thinking_index
          st.tool_blocks_by_call_id
          (shut (shut c))
  call_Tracks call fits =
      shut-Tracks (shut-Tracks f (one_fits fits) st.emitted_web_search_call_ids call.call_id) fits
        st.emitted_web_search_call_ids call.call_id

  -- A call sends its two blocks, or nothing if it was sent before.
  pub emit_Sends :
      (call : WebSearchCall)
      → length (emit_web_search_call_blocks st call).1.blocks ≤ u32_max
      → Sends
          (emit_web_search_call_blocks st call).1
          c
          (event_list (emit_web_search_call_blocks st call).0)
  unfolding emit_web_search_call_blocks client_run
  emit_Sends call fits = elim (Bool-cases (contains st.emitted_web_search_call_ids call.call_id)) [
    | inl old ↦ rw old (c, refl, f)
    | inr new ↦
        rw new
          (shut (shut c), call_events_run call (rw new at fits), call_Tracks call (rw new at fits))
  ]
