-- ===== src/Bridge/Protocol.antt =====
-- An independent reader of an Anthropic message stream: it decodes each event from its name and its
-- payload, and accepts the order that the Messages API documents.
pub mod Decoding
pub mod Tracks
pub mod Blocks
pub mod Searches
pub mod Steps
pub mod Dispatch
pub mod Finish
pub mod TwiceStopped
pub mod Completed
pub mod Growth
pub mod Stream
use cld_gateway.Base.{
  ℕ, String, Bool, true, false, Option, none, some, List, [], ◌∷◌, ◌++◌, ◌&&◌, not, str_eq, ◌==◌,
  if◌then◌else◌, length, get_elem?, set,
}
use cld_gateway.Json.{Json, get, as_u64}
use cld_gateway.Bridge.Event.{Event}

pub data Sent : Type 0 where
  start delta stop : ℕ → Sent
  message_delta message_stop error unknown : Sent

abbrev pub numbered : (ℕ → Sent) → Option Json → Sent
numbered make none = unknown
numbered make (some v) = elim (as_u64 v) [ none ↦ unknown | some i ↦ make i ]

unfoldable pub decode : Event → Sent
unfolding get as_u64
decode e =
    if str_eq e.event "content_block_start"
    then numbered start (get "index" e.payload)
    else if str_eq e.event "content_block_delta"
    then numbered delta (get "index" e.payload)
    else if str_eq e.event "content_block_stop"
    then numbered stop (get "index" e.payload)
    else if str_eq e.event "message_delta"
    then message_delta
    else if str_eq e.event "message_stop"
    then message_stop
    else if str_eq e.event "error"
    then error
    else unknown

-- One flag for each block started so far: whether it is open. `ended` is set by the last event.
pub record Client : Type 0 where
  pub open_flags : List Bool
  pub ended : Bool

abbrev pub fresh : Client
fresh = record { open_flags = []; ended = false }

abbrev pub is_open : List Bool → ℕ → Bool
is_open flags i = elim (get_elem? flags i) [ none ↦ false | some b ↦ b ]

unfoldable pub all_closed : List Bool → Bool
all_closed [] = true
all_closed (b ∷ bs) = not b && all_closed bs

-- `none` is a violation of the protocol. Blocks are numbered from 0 in the order of their starts,
-- deltas and stops are for open blocks, and the message ends when every block is closed.
abbrev pub accept : Sent → Client → Option Client
accept (start i) c =
    if i == length c.open_flags
    then some (record c { open_flags = c.open_flags ++ true ∷ [] })
    else none
accept (delta i) c = if is_open c.open_flags i then some c else none
accept (stop i) c =
    if is_open c.open_flags i
    then some (record c { open_flags = set c.open_flags i false })
    else none
accept message_delta c = if all_closed c.open_flags then some c else none
accept message_stop c = some (record c { ended = true })
accept error c = some (record c { ended = true })
accept unknown c = none

abbrev pub client_step : Client → Event → Option Client
client_step c e = if c.ended then none else accept (decode e) c

unfoldable pub client_run : Client → List Event → Option Client
client_run c [] = some c
client_run c (e ∷ es) = elim (client_step c e) [ none ↦ none | some c' ↦ client_run c' es ]
