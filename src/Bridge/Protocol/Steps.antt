-- ===== src/Bridge/Protocol/Steps.antt =====
-- The events of each handler are accepted, and the reader follows the handler's state.
use cld_gateway.Base.{
  ℕ, ◌≤◌, String, ◌≡◌, refl, Bool, true, false, Option, none, some, List, [], ◌∷◌, map, length, inl,
  inr, Bool-cases, is_some,
}
use cld_gateway.Base.Dict
use cld_gateway.Base.Text.{is_blank}
use cld_gateway.Codex.Types.{CodexToolCall}
use cld_gateway.Codex.Completed.{u32_max}
use cld_gateway.Bridge.Event.{Event, content_block_delta_text, content_block_delta_thinking}
use cld_gateway.Bridge.State.{
  StreamState, tool_block, ensure_tool_block, open_text_block_if_needed,
  open_thinking_block_if_needed,
}
use cld_gateway.Bridge.Handlers.{
  output_text_delta, send_text, announce_item, handle_tool_call_item, message_texts, tool_arg_delta,
  send_thinking, non_empty_events,
}
use cld_gateway.Bridge.Complete.{event_list}
use cld_gateway.Bridge.Protocol.{Client, client_run}
use cld_gateway.Bridge.Protocol.Tracks.{Follows, Sends}
use cld_gateway.Bridge.Protocol.Decoding.{decode-delta_text, decode-delta_thinking}
use cld_gateway.Bridge.Protocol.Blocks.{
  Deltas, open_text-Sends, open_thinking-Sends, tool_block-Sends,
}

-- What a handler's result sends.
abbrev pub Sent? : Client → Option (List Event) × StreamState → Type 0
Sent? c (events, st) = Sends st c (event_list events)

abbrev pub Fits : Option (List Event) × StreamState → Type 0
Fits (events, st) = length st.blocks ≤ u32_max

event_list-non_empty_events : (es : List Event) → event_list (non_empty_events es) ≡ es
event_list-non_empty_events [] = refl
event_list-non_empty_events (e ∷ es) = refl

module _ (st : StreamState) {c : Client} (f : Follows st c) where
  pub nothing_sent : Sent? c (none, st)
  unfolding client_run
  nothing_sent = (c, refl, f)

  pub send_text_Sent : (text : String) → Fits (send_text text st) → Sent? c (send_text text st)
  unfolding open_text_block_if_needed
  send_text_Sent text fits =
      open_text-Sends st f (λ i. content_block_delta_text i text ∷ [])
        (λ i. (decode-delta_text i text, tt)) st.active_text_index f.text_open fits

  pub output_text_delta_Sent :
      (o : Option String) → Fits (output_text_delta o st) → Sent? c (output_text_delta o st)
  unfolding client_run
  output_text_delta_Sent none fits = nothing_sent
  output_text_delta_Sent (some text) fits = elim (Bool-cases (is_blank text)) [
    | inl blank ↦ rw blank nothing_sent
    | inr solid ↦ elim (Bool-cases (is_some st.structured_output_schema)) [
      | inl structured ↦ rw solid (rw structured (c, refl, f))
      | inr plain ↦ rw solid (rw plain (send_text_Sent text (rw plain at (rw solid at fits))))
    ]
  ]

  texts-Deltas : (i : ℕ) (ts : List String) → Deltas i (map (content_block_delta_text i) ts)
  texts-Deltas i [] = tt
  texts-Deltas i (t ∷ ts) = (decode-delta_text i t, texts-Deltas i ts)

  pub message_texts_Sent :
      (ts : List String) → Fits (message_texts ts st) → Sent? c (message_texts ts st)
  unfolding client_run open_text_block_if_needed
  message_texts_Sent [] fits = nothing_sent
  message_texts_Sent (t ∷ ts) fits = elim (Bool-cases (is_some st.structured_output_schema)) [
    | inl structured ↦ rw structured (c, refl, f)
    | inr plain ↦ rw plain (
        rw event_list-non_empty_events (
          open_text-Sends st f (λ i. map (content_block_delta_text i) (t ∷ ts))
            (λ i. texts-Deltas i (t ∷ ts)) st.active_text_index f.text_open (rw plain at fits)))
  ]

  pub send_thinking_Sent :
      (text : String) → Fits (send_thinking text st) → Sent? c (send_thinking text st)
  unfolding open_thinking_block_if_needed
  send_thinking_Sent text fits =
      open_thinking-Sends st f (λ i. content_block_delta_thinking i text ∷ [])
        (λ i. (decode-delta_thinking i text, tt)) st.active_thinking_index f.thinking_open fits

  pub tool_arg_delta_Sent :
      (call_id : Option String) (text : String)
      → Fits (tool_arg_delta call_id text st)
      → Sent? c (tool_arg_delta call_id text st)
  unfolding ensure_tool_block
  tool_arg_delta_Sent none text fits = nothing_sent
  tool_arg_delta_Sent (some call_id) text fits =
      rw event_list-non_empty_events
        (tool_block-Sends st f call_id "" (Dict.get call_id st.tool_blocks_by_call_id) fits)

  announce_item-Sends :
      (call : CodexToolCall) (final_item : Bool) (request_id : Option String) (o : Option ℕ)
      → length
          (announce_item call final_item request_id (tool_block call.call_id o st)).state.blocks
        ≤ u32_max
      → Sends (announce_item call final_item request_id (tool_block call.call_id o st)).state c (
          event_list
            (announce_item call final_item request_id (tool_block call.call_id o st)).events)
  unfolding client_run
  announce_item-Sends call true request_id (some i) fits = (c, refl, f)
  announce_item-Sends call false request_id (some i) fits = (c, refl, f)
  announce_item-Sends call true request_id none fits =
      tool_block-Sends st f call.call_id call.name none fits
  announce_item-Sends call false request_id none fits =
      tool_block-Sends st f call.call_id call.name none fits

  pub tool_call_Sends :
      (call : CodexToolCall) (final_item : Bool) (request_id : Option String)
      → length (handle_tool_call_item st call final_item request_id).state.blocks ≤ u32_max
      → Sends
          (handle_tool_call_item st call final_item request_id).state
          c
          (event_list (handle_tool_call_item st call final_item request_id).events)
  unfolding ensure_tool_block handle_tool_call_item
  tool_call_Sends call final_item request_id fits =
      announce_item-Sends call final_item request_id
        (Dict.get call.call_id st.tool_blocks_by_call_id) fits
