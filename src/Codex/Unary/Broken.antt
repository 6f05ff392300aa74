-- ===== src/Codex/Unary/Broken.antt =====
-- A stream that breaks.
use cld_gateway.Base.{String, ◌≡◌, List, [], ◌∷◌, ◌++◌, refl}
use cld_gateway.Base.Result.{Result, ok, err}
use cld_gateway.Base.Text.{trim}
use cld_gateway.Codex.Serde.{Serde}
use cld_gateway.Codex.Unary.{
  CodexBackendEvent, CodexUnaryDecoded, SseDecodeError, Reading, initial, then_read, read_event,
  read_events, decoded, read_backend_events_to_completion,
}

module _ (S : Serde) (message : String) (rest : List (Result String CodexBackendEvent)) where
  -- An error is an error of what follows it.
  refused_then :
      {A : Type 0} (r : Result SseDecodeError Reading) (next : Reading → Result SseDecodeError A)
      → ((q : Reading) (b : A) → ¬ (next q ≡ ok b))
      → (b : A) → ¬ (then_read r next ≡ ok b)
  refused_then (err e) next never b h = cc
  refused_then (ok q) next never b h = never q b h

  broken_loop :
      (before : List (Result String CodexBackendEvent)) (r q : Reading)
      → ¬ (read_events S (before ++ err message ∷ rest) r ≡ ok q)
  unfolding read_events
  broken_loop [] r q h = cc
  broken_loop (err e ∷ before) r q h = cc
  broken_loop (ok event ∷ before) r q h =
      refused_then (read_event S event.event (trim event.data') r)
        (read_events S (before ++ err message ∷ rest)) (broken_loop before) q h

  -- If the transport yields an error somewhere in the stream, then the reading of the stream
  -- gives no response, whatever comes before and after.
  pub broken_refused :
      (before : List (Result String CodexBackendEvent)) (d : CodexUnaryDecoded)
      → ¬ (read_backend_events_to_completion S (before ++ err message ∷ rest) ≡ ok d)
  unfolding read_backend_events_to_completion
  broken_refused before d h =
      no_loop (read_events S (before ++ err message ∷ rest) initial) (broken_loop before initial) h
    where
      no_loop :
          (r : Result SseDecodeError Reading)
          → ((q : Reading) → ¬ (r ≡ ok q))
          → ¬ (then_read r decoded ≡ ok d)
      no_loop (err e) never h = cc
      no_loop (ok q) never h = never q refl
