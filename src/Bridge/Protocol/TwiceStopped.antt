-- ===== src/Bridge/Protocol/TwiceStopped.antt =====
-- The blocks of a web-search call stay open in the bridge's state after their stops were sent, so
-- that the end of the message stops them again.
use cld_gateway.Base.{
  ℕ, zero, suc, ◌≤◌, ◌≡◌, refl, sym, ◌∙◌, subst, Bool, false, none, some, List, [], ◌∷◌, ◌++◌,
  arith, length, get_elem?, get_elem?-length, set, if◌then◌else◌, inl, inr, Bool-cases,
}
use cld_gateway.Codex.Serde.{Serde}
use cld_gateway.Codex.Completed.{u32_max, contains}
use cld_gateway.Bridge.Event.{Event, content_block_stop}
use cld_gateway.Bridge.State.{StreamState, BlockState, next_index}
use cld_gateway.Bridge.WebSearch.{WebSearchCall, emit_web_search_call_blocks}
use cld_gateway.Bridge.Complete.{event_list, stop_events, flush_structured_output, finalize_message}
use cld_gateway.Bridge.Protocol.{Client, client_step, client_run, is_open}
use cld_gateway.Bridge.Protocol.Tracks.{Follows, added, client_run-append}
use cld_gateway.Bridge.Protocol.Decoding.{decode-stop}
use cld_gateway.Bridge.Protocol.Searches.{shut, shut-Tracks, one_fits, call_events_run, call_Tracks}

set_keeps_false :
    (flags : List Bool) (k i : ℕ)
    → get_elem? flags i ≡ some false
    → get_elem? (set flags k false) i ≡ some false
set_keeps_false [] k i h = h
set_keeps_false (b ∷ flags) zero zero h = refl
set_keeps_false (b ∷ flags) zero (suc i) h = h
set_keeps_false (b ∷ flags) (suc k) zero h = h
set_keeps_false (b ∷ flags) (suc k) (suc i) h = set_keeps_false flags k i h

-- The reader of a stop, for a block that is open or not.
stop_step :
    (c : Client) (i : ℕ)
    → c.ended ≡ false
    → client_step c (content_block_stop i) ≡ (
        if is_open c.open_flags i
        then some (record c { open_flags = set c.open_flags i false })
        else none)
stop_step c i running = ground (arith, decode-stop i, running)

-- The stops of blocks of which the last is open in the state and closed for the reader.
stop_refused :
    (bs : List BlockState) (i : ℕ) (more : List Event) (c : Client)
    → c.ended ≡ false
    → get_elem? c.open_flags i ≡ some false
    → client_run c (stop_events (bs ++ record { index = i; closed = false } ∷ []) ++ more) ≡ none
unfolding stop_events client_run
stop_refused [] i more c running shut_before =
    rw (stop_step c i running, client_run) (rw shut_before refl)
stop_refused (b ∷ bs) i more c running shut_before = elim (Bool-cases b.closed) [
  | inl closed ↦ rw closed (stop_refused bs i more c running shut_before)
  | inr opened ↦ rw opened (elim (Bool-cases (is_open c.open_flags b.index)) [
    | inl o ↦
        rw (stop_step c b.index running, client_run)
          (rw o (
            stop_refused bs i more (record c { open_flags = set c.open_flags b.index false })
              running (set_keeps_false c.open_flags b.index i shut_before)))
    | inr o ↦ rw (stop_step c b.index running, client_run) (rw o refl)
  ])
]

module _ (S : Serde) (st : StreamState) {c : Client} (f : Follows st c) (call : WebSearchCall) where
  -- For a state that the reader follows, without a schema for structured output, and a web-search
  -- call that was not sent before: if the blocks fit and the message ends right after the call's
  -- events, then the reader refuses what is sent, since the call's last block is stopped a second
  -- time.
  pub web_search_stopped_twice :
      contains st.emitted_web_search_call_ids call.call_id ≡ false
      → st.structured_output_schema ≡ none
      → length (emit_web_search_call_blocks st call).1.blocks ≤ u32_max
      → client_run c (
          event_list (emit_web_search_call_blocks st call).0
          ++ (finalize_message S (emit_web_search_call_blocks st call).1).0)
        ≡ none
  unfolding emit_web_search_call_blocks finalize_message flush_structured_output
  web_search_stopped_twice fresh_call plain fits = rw fresh_call (
      rw plain (
        client_run-append c _ _ (call_events_run st f call (rw fresh_call at fits))
        ∙ stop_refused (added st.blocks st.next_block_index) (next_index st.next_block_index) _
            (shut (shut c)) (call_Tracks st f call (rw fresh_call at fits)).running last_shut))
    where
      last_shut : get_elem? (shut (shut c)).open_flags (next_index st.next_block_index) ≡ some false
      last_shut =
          let t = shut-Tracks f (one_fits st f (rw fresh_call at fits)) [] call.call_id in
          subst (λ i. get_elem? (shut (shut c)).open_flags i ≡ some false)
            (t.started ∙ sym t.counted) (get_elem?-length (shut c).open_flags false)
