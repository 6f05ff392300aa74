-- ===== src/Bridge/Protocol/Finish.antt =====
-- The end of a message: the stops of the blocks, the message's delta and its stop.
use cld_gateway.Base.{
  ℕ, ◌≤◌, String, ◌≡◌, refl, ap, sym, ◌∙◌, subst, Bool, true, false, Option, none, some, List, [],
  ◌∷◌, ◌++◌, arith, length, length-append, set-append, get_elem?-middle, not, ◌&&◌, is_some, inl,
  inr, Bool-cases,
}
use cld_gateway.Json.{Json}
use cld_gateway.Codex.Types.{CodexTokenUsage}
use cld_gateway.Codex.Serde.{Serde}
use cld_gateway.Codex.Completed.{u32_max}
use cld_gateway.Base.Text.{is_blank}
use cld_gateway.Bridge.Event.{Event, content_block_stop, message_delta, message_stop}
use cld_gateway.Bridge.State.{
  StreamState, BlockState, add_block, open_text, open_text_block_if_needed,
}
use cld_gateway.Bridge.Complete.{
  stop_events, stop_reason_of, structured_text, flush_structured_output, finalize_message,
}
use cld_gateway.Bridge.Protocol
use cld_gateway.Bridge.Protocol.{Client, client_step, client_run, decode, all_closed, stop}
use cld_gateway.Bridge.Protocol.Tracks.{Follows, Sends, Numbered, flags_of, client_run-append}
use cld_gateway.Bridge.Protocol.Decoding.{decode-stop}
use cld_gateway.Bridge.Protocol.Steps.{send_text_Sent}

abbrev pub reading : List Bool → Client
reading flags = record { open_flags = flags; ended = false }

-- The events end with every block closed.
abbrev pub Closes : Client → List Event → Type 0
Closes c es =
    (c' : Client) × (client_run c es ≡ some c')
    × (c'.ended ≡ false)
    × (all_closed c'.open_flags ≡ true)

all_closed-snoc :
    (done : List Bool) → all_closed done ≡ true → all_closed (done ++ false ∷ []) ≡ true
unfolding all_closed
all_closed-snoc [] h = refl
all_closed-snoc (false ∷ done) h = all_closed-snoc done h
all_closed-snoc (true ∷ done) h = cc

stop_accepted :
    (done rest : List Bool) (i : ℕ)
    → i ≡ length done
    → client_step (reading (done ++ true ∷ rest)) (content_block_stop i)
      ≡ some (reading (done ++ false ∷ rest))
stop_accepted done rest i e =
    ground
      (arith, decode-stop i, e, get_elem?-middle done true rest, set-append done true rest false)

append_nil : (xs : List Bool) → xs ++ [] ≡ xs
append_nil [] = refl
append_nil (x ∷ xs) = ap (λ t. x ∷ t) (append_nil xs)

reassociate :
    (done : List Bool) (rest : List Bool) → (done ++ false ∷ []) ++ rest ≡ done ++ false ∷ rest
reassociate [] rest = refl
reassociate (d ∷ done) rest = ap (λ t. d ∷ t) (reassociate done rest)

-- The stops of the remaining blocks.
stops_run :
    (bs : List BlockState) (done : List Bool)
    → Numbered (length done) bs
    → all_closed done ≡ true
    → Closes (reading (done ++ flags_of bs)) (stop_events bs)
unfolding stop_events client_run
stops_run [] done n closed = (reading (done ++ []), refl, refl, rw (append_nil done) closed)
stops_run (b ∷ bs) done n closed =
    let (c', run, still, all) =
      stops_run bs (done ++ false ∷ [])
        (subst (λ k. Numbered k bs) (omega (arith, length-append done (false ∷ []))) n.1)
        (all_closed-snoc done closed) in
    let run' : client_run (reading (done ++ false ∷ flags_of bs)) (stop_events bs) ≡ some c' =
      subst (λ fl. client_run (reading fl) (stop_events bs) ≡ some c')
        (reassociate done (flags_of bs)) run in
    elim (Bool-cases b.closed) [
      | inl shut ↦ rw shut (c', run', still, all)
      | inr opened ↦
          rw opened
            (c', rw (stop_accepted done (flags_of bs) b.index n.0, client_run) run', still, all)
    ]

-- The texts of a structured output, before the stops.
flush_Sends :
    (S : Serde) (st : StreamState) {c : Client}
    → Follows st c
    → length (flush_structured_output S st).1.blocks ≤ u32_max
    → Sends (flush_structured_output S st).1 c (flush_structured_output S st).0
unfolding flush_structured_output client_run
flush_Sends S st {c} f fits =
    elim (Bool-cases (
      is_some st.structured_output_schema
      && (not (is_blank st.structured_output_text_buffer)
          && not (is_blank (structured_text S st))))) [
            | inl some_text ↦
                rw some_text (send_text_Sent st f (structured_text S st) (rw some_text at fits))
            | inr no_text ↦ rw no_text (c, refl, f)
          ]

decode-message_delta :
    (reason : String) (usage : Option CodexTokenUsage) (context : Option Json)
    → decode (message_delta reason usage context) ≡ Protocol.message_delta
unfolding decode message_delta
decode-message_delta reason usage context = refl

-- The last two events of a message end the stream, where every block is closed.
last_run :
    (c : Client) (e : Event)
    → decode e ≡ Protocol.message_delta
    → c.ended ≡ false
    → all_closed c.open_flags ≡ true
    → client_run c (e ∷ message_stop ∷ []) ≡ some (record c { ended = true })
unfolding client_run message_stop decode
last_run c e d running closed = ground (arith, d, running, closed)

as_reading :
    (c : Client) (flags : List Bool) → c.ended ≡ false → c.open_flags ≡ flags → c ≡ reading flags
as_reading c flags running e = λ i. record { open_flags = e i; ended = running i }

flush_keeps_searches :
    (S : Serde) (st : StreamState)
    → (flush_structured_output S st).1.emitted_web_search_call_ids ≡ st.emitted_web_search_call_ids
unfolding flush_structured_output open_text_block_if_needed add_block
flush_keeps_searches S st =
    elim (Bool-cases (
      is_some st.structured_output_schema
      && (not (is_blank st.structured_output_text_buffer)
          && not (is_blank (structured_text S st))))) [
            | inl some_text ↦ rw some_text (text_keeps st.active_text_index)
            | inr no_text ↦ rw no_text refl
          ]
  where
    text_keeps :
        (o : Option ℕ)
        → (open_text o st).1.emitted_web_search_call_ids ≡ st.emitted_web_search_call_ids
    text_keeps none = refl
    text_keeps (some i) = refl

module _ (S : Serde) (st : StreamState) {c : Client} (f : Follows st c) where
  -- For a state that the reader follows and in which no web search was sent: if the number of
  -- blocks after the text of a structured output is at most the greatest u32, then everything
  -- that is sent at the end of the message is accepted, after which the stream is ended and every
  -- block is closed.
  pub finalize_message-ended :
      st.emitted_web_search_call_ids ≡ []
      → length (flush_structured_output S (record st { completed = true })).1.blocks ≤ u32_max
      → (c' : Client) × (client_run c (finalize_message S st).0 ≡ some c')
        × (c'.ended ≡ true)
        × (all_closed c'.open_flags ≡ true)
  unfolding finalize_message all_closed
  finalize_message-ended none_sent fits =
      let done = record st { completed = true } in
      let st1 = (flush_structured_output S done).1 in
      let (c1, texts, f1) = flush_Sends S done f fits in
      let flags = f1.exactly (flush_keeps_searches S done ∙ none_sent) in
      let (c2, stops, running, closed) = stops_run st1.blocks [] f1.indexed refl in
      let stops1 : client_run c1 (stop_events st1.blocks) ≡ some c2 =
        subst (λ x. client_run x (stop_events st1.blocks) ≡ some c2)
          (sym (as_reading c1 (flags_of st1.blocks) f1.running flags)) stops in
      let e =
        message_delta (stop_reason_of st1.tool_blocks_by_call_id) st1.completed_usage
          st1.context_management in
      (
        record c2 { ended = true },
        client_run-append c (flush_structured_output S done).0 _ texts
            ∙ client_run-append c1 (stop_events st1.blocks) _ stops1
            ∙ last_run c2 e (decode-message_delta _ _ _) running closed,
        refl,
        closed,
      )
