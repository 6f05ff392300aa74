-- ===== src/Bridge/Protocol/Blocks.antt =====
-- The events that open a block where there is none yet, and deltas for it, are accepted.
use cld_gateway.Base.{
  ℕ, ◌≤◌, String, ◌≡◌, refl, Bool, true, Option, none, some, List, [], ◌∷◌, ◌++◌, length, get_elem?,
  All, Bool-cases, inl, inr, str_eq,
}
use cld_gateway.Base.Dict
use cld_gateway.Base.Dict.{Dict}
use cld_gateway.Codex.Completed.{u32_max}
use cld_gateway.Bridge.Event.{
  Event, content_block_start_text, content_block_start_tool_use, content_block_start_thinking,
}
use cld_gateway.Bridge.State.{StreamState, add_block, open_text, open_thinking, tool_block}
use cld_gateway.Bridge.Handlers.{start_if}
use cld_gateway.Bridge.Protocol.{Client, client_run, decode, delta}
use cld_gateway.Bridge.Protocol.Tracks.{
  Follows, Sends, OpenAt, AllOpen, opened, opened-Tracks, opened_at_next, text-Tracks,
  thinking-Tracks, tools-Tracks, deltas_run, start_deltas_run,
}
use cld_gateway.Bridge.Protocol.Decoding.{
  decode-start_text, decode-start_tool_use, decode-start_thinking,
}

-- Events that are deltas for a block.
abbrev pub Deltas : ℕ → List Event → Type 0
Deltas i es = All (λ e. decode e ≡ delta i) es

module _ (st : StreamState) {c : Client} (f : Follows st c) (deltas : ℕ → List Event)
    (are_deltas : (i : ℕ) → Deltas i (deltas i)) where
  pub open_text-Sends :
      (o : Option ℕ)
      → OpenAt c.open_flags o
      → length (open_text o st).1.blocks ≤ u32_max
      → Sends (open_text o st).1 c (
          start_if (open_text o st).0.1 (content_block_start_text (open_text o st).0.0)
          ++ deltas (open_text o st).0.0)
  unfolding add_block
  open_text-Sends (some i) o fits = (c, deltas_run f i (deltas i) (are_deltas i) o, f)
  open_text-Sends none o fits =
      let n = st.next_block_index in
      (
        opened c,
        start_deltas_run f (content_block_start_text n) (deltas n) (decode-start_text n)
            (are_deltas n) fits,
        text-Tracks (opened-Tracks f fits) (some n) (opened_at_next f),
      )

  pub open_thinking-Sends :
      (o : Option ℕ)
      → OpenAt c.open_flags o
      → length (open_thinking o st).1.blocks ≤ u32_max
      → Sends (open_thinking o st).1 c (
          start_if (open_thinking o st).0.1 (content_block_start_thinking (open_thinking o st).0.0)
          ++ deltas (open_thinking o st).0.0)
  unfolding add_block
  open_thinking-Sends (some i) o fits = (c, deltas_run f i (deltas i) (are_deltas i) o, f)
  open_thinking-Sends none o fits =
      let n = st.next_block_index in
      (
        opened c,
        start_deltas_run f (content_block_start_thinking n) (deltas n) (decode-start_thinking n)
            (are_deltas n) fits,
        thinking-Tracks (opened-Tracks f fits) (some n) (opened_at_next f),
      )

pub AllOpen-insert :
    (flags : List Bool) (call_id : String) (i : ℕ) (tools : Dict ℕ)
    → get_elem? flags i ≡ some true
    → AllOpen flags tools
    → AllOpen flags (Dict.insert call_id i tools)
unfolding Dict.insert
AllOpen-insert flags call_id i [] o h = (o, tt)
AllOpen-insert flags call_id i ((j, k) ∷ tools) o h = elim (Bool-cases (str_eq j call_id)) [
  | inl same ↦ rw same (o, h.1)
  | inr other ↦ rw other (h.0, AllOpen-insert flags call_id i tools o h.1)
]

pub AllOpen-get :
    (flags : List Bool) (call_id : String) (tools : Dict ℕ)
    → AllOpen flags tools
    → OpenAt flags (Dict.get call_id tools)
unfolding Dict.get
AllOpen-get flags call_id [] h = tt
AllOpen-get flags call_id ((j, k) ∷ tools) h = elim (Bool-cases (str_eq j call_id)) [
  | inl same ↦ rw same h.0
  | inr other ↦ rw other (AllOpen-get flags call_id tools h.1)
]

module _ (st : StreamState) {c : Client} (f : Follows st c) where
  pub tool_block-Sends :
      (call_id name : String) (o : Option ℕ)
      → length (tool_block call_id o st).1.blocks ≤ u32_max
      → Sends (tool_block call_id o st).1 c (
          start_if
            (tool_block call_id o st).0.1
            (content_block_start_tool_use (tool_block call_id o st).0.0 call_id name))
  unfolding add_block client_run
  tool_block-Sends call_id name (some i) fits = (c, refl, f)
  tool_block-Sends call_id name none fits =
      let n = st.next_block_index in
      (
        opened c,
        start_deltas_run f (content_block_start_tool_use n call_id name) []
            (decode-start_tool_use n call_id name) tt fits,
        tools-Tracks (opened-Tracks f fits) _ (
            AllOpen-insert (opened c).open_flags call_id n st.tool_blocks_by_call_id
              (opened_at_next f) (opened-Tracks f fits).tools_open),
      )
