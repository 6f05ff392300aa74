-- ===== src/Bridge/Protocol/Tracks.antt =====
-- The relation between the bridge's state and the reader of its events, and how the bridge's single
-- events move it.
use cld_gateway.Base.{
  ℕ, suc, ◌+◌, ◌≤◌, String, ◌≡◌, refl, ap, Bool, true, false, Option, none, some, List, [], ◌∷◌,
  ◌++◌, not, arith, length, length-append, get_elem?, get_elem?-append, get_elem?-length, All,
  Option-cases, inl, inr,
}
use cld_gateway.Base.Dict.{Dict}
use cld_gateway.Codex.Completed.{u32_max}
use cld_gateway.Bridge.Event.{Event}
use cld_gateway.Bridge.State.{StreamState, BlockState, next_index}
use cld_gateway.Bridge.Protocol.{start, delta, decode, Client, client_step, client_run}

-- Block k has index k.
abbrev pub Numbered : ℕ → List BlockState → Type 0
Numbered k [] = Unit
Numbered k (b ∷ bs) = (b.index ≡ k) × Numbered (suc k) bs

abbrev pub OpenAt : List Bool → Option ℕ → Type 0
OpenAt flags none = Unit
OpenAt flags (some i) = get_elem? flags i ≡ some true

abbrev pub AllOpen : List Bool → Dict ℕ → Type 0
AllOpen flags tools = All (λ (t : String × ℕ). get_elem? flags t.1 ≡ some true) tools

abbrev pub flags_of : List BlockState → List Bool
flags_of [] = []
flags_of (b ∷ bs) = not b.closed ∷ flags_of bs

-- The reader has seen a start for each block, and the blocks to which text, thinking and tool
-- arguments go are open. While no web search was
-- sent, the open blocks are those that the bridge will stop.
pub record Tracks (searched : List String) (next : ℕ) (blocks : List BlockState)
    (text thinking : Option ℕ) (tools : Dict ℕ) (c : Client) : Type 0 where
  pub running : c.ended ≡ false
  pub started : length c.open_flags ≡ length blocks
  pub counted : next ≡ length blocks
  pub indexed : Numbered 0 blocks
  pub text_open : OpenAt c.open_flags text
  pub thinking_open : OpenAt c.open_flags thinking
  pub tools_open : AllOpen c.open_flags tools
  pub exactly : searched ≡ [] → c.open_flags ≡ flags_of blocks

abbrev pub Follows : StreamState → Client → Type 0
Follows st c =
    Tracks st.emitted_web_search_call_ids st.next_block_index st.blocks st.active_text_index
      st.active_thinking_index st.tool_blocks_by_call_id c

-- The events are accepted, and the reader follows the state again.
abbrev pub Sends : StreamState → Client → List Event → Type 0
Sends st c es = (c' : Client) × (client_run c es ≡ some c') × Follows st c'

pub client_run-append :
    (c : Client) (xs ys : List Event) {c' : Client}
    → client_run c xs ≡ some c'
    → client_run c (xs ++ ys) ≡ client_run c' ys
unfolding client_run
client_run-append c [] ys h = ground arith
client_run-append c (x ∷ xs) ys h = elim (Option-cases (client_step c x)) [
  | inl e ↦ cc (rw (e, client_run) at h)
  | inr (d, e) ↦ rw (e, client_run) (client_run-append d xs ys (rw (e, client_run) at h))
]

Numbered-append :
    (k : ℕ) (bs : List BlockState) (b : BlockState)
    → Numbered k bs
    → b.index ≡ k + length bs
    → Numbered k (bs ++ b ∷ [])
Numbered-append k [] b n e = (omega (arith, e), tt)
Numbered-append k (x ∷ bs) b n e = (n.0, Numbered-append (suc k) bs b n.1 (omega (arith, e)))

flags_of-append :
    (bs : List BlockState) (b : BlockState)
    → flags_of (bs ++ b ∷ []) ≡ flags_of bs ++ not b.closed ∷ []
flags_of-append [] b = refl
flags_of-append (x ∷ bs) b = ap (λ t. not x.closed ∷ t) (flags_of-append bs b)

pub OpenAt-append :
    (flags more : List Bool) (o : Option ℕ) → OpenAt flags o → OpenAt (flags ++ more) o
OpenAt-append flags more none h = tt
OpenAt-append flags more (some i) h = get_elem?-append flags more i h

pub AllOpen-append :
    (flags more : List Bool) (tools : Dict ℕ) → AllOpen flags tools → AllOpen (flags ++ more) tools
AllOpen-append flags more [] h = tt
AllOpen-append flags more (t ∷ tools) h =
    (get_elem?-append flags more t.1 h.0, AllOpen-append flags more tools h.1)

-- The reader after a start.
abbrev pub opened : Client → Client
opened c = record c { open_flags = c.open_flags ++ true ∷ [] }

abbrev pub added : List BlockState → ℕ → List BlockState
added blocks next = blocks ++ record { index = next; closed = false } ∷ []

module _ {searched : List String} {next : ℕ} {blocks : List BlockState} {text thinking : Option ℕ}
    {tools : Dict ℕ} {c : Client} (t : Tracks searched next blocks text thinking tools c) where
  -- A new block, as long as the index fits a `u32`.
  pub opened-Tracks :
      length (added blocks next) ≤ u32_max
      → Tracks searched (next_index next) (added blocks next) text thinking tools (opened c)
  opened-Tracks fits = record {
    running = t.running;
    started = omega (
      arith,
      length-append c.open_flags (true ∷ []),
      length-append blocks (record { index = next; closed = false } ∷ []),
      t.started,
    );
    counted =
        ground
          (arith, t.counted, length-append blocks (record { index = next; closed = false } ∷ []));
    indexed = Numbered-append 0 blocks _ t.indexed (omega (arith, t.counted));
    text_open = OpenAt-append c.open_flags _ text t.text_open;
    thinking_open = OpenAt-append c.open_flags _ thinking t.thinking_open;
    tools_open = AllOpen-append c.open_flags _ tools t.tools_open;
    exactly = λ e.
        rw (flags_of-append blocks (record { index = next; closed = false }))
          (ap (λ f. f ++ true ∷ []) (t.exactly e));
  }

  pub opened_at_next : get_elem? (opened c).open_flags next ≡ some true
  opened_at_next = rw t.counted (rw (← t.started) (get_elem?-length c.open_flags true))

  -- A start is accepted if it is for the next block.
  pub start_accepted : (e : Event) → decode e ≡ start next → client_step c e ≡ some (opened c)
  start_accepted e d = ground (arith, d, t.running, t.counted, t.started)

  pub delta_accepted :
      (e : Event) (i : ℕ)
      → decode e ≡ delta i
      → get_elem? c.open_flags i ≡ some true
      → client_step c e ≡ some c
  delta_accepted e i d o = ground (arith, d, t.running, o)

module _ {searched : List String} {next : ℕ} {blocks : List BlockState} {text thinking : Option ℕ}
    {tools : Dict ℕ} {c : Client} (t : Tracks searched next blocks text thinking tools c) where
  pub text-Tracks :
      (o : Option ℕ) → OpenAt c.open_flags o → Tracks searched next blocks o thinking tools c
  text-Tracks o h = record {
    running = t.running;
    started = t.started;
    counted = t.counted;
    indexed = t.indexed;
    text_open = h;
    thinking_open = t.thinking_open;
    tools_open = t.tools_open;
    exactly = t.exactly;
  }

  pub thinking-Tracks :
      (o : Option ℕ) → OpenAt c.open_flags o → Tracks searched next blocks text o tools c
  thinking-Tracks o h = record {
    running = t.running;
    started = t.started;
    counted = t.counted;
    indexed = t.indexed;
    text_open = t.text_open;
    thinking_open = h;
    tools_open = t.tools_open;
    exactly = t.exactly;
  }

  pub tools-Tracks :
      (more : Dict ℕ) → AllOpen c.open_flags more → Tracks searched next blocks text thinking more c
  tools-Tracks more h = record {
    running = t.running;
    started = t.started;
    counted = t.counted;
    indexed = t.indexed;
    text_open = t.text_open;
    thinking_open = t.thinking_open;
    tools_open = h;
    exactly = t.exactly;
  }

  -- Deltas for an open block are accepted, and change nothing.
  pub deltas_run :
      (i : ℕ) (es : List Event)
      → All (λ e. decode e ≡ delta i) es
      → get_elem? c.open_flags i ≡ some true
      → client_run c es ≡ some c
  unfolding client_run
  deltas_run i [] d o = refl
  deltas_run i (e ∷ es) d o = rw (delta_accepted t e i d.0 o, client_run) (deltas_run i es d.1 o)

  -- A start of the next block, and deltas for it.
  pub start_deltas_run :
      (e : Event) (es : List Event)
      → decode e ≡ start next
      → All (λ x. decode x ≡ delta next) es
      → length (added blocks next) ≤ u32_max
      → client_run c (e ∷ es) ≡ some (opened c)
  unfolding client_run
  start_deltas_run e es d ds fits = rw (start_accepted t e d, client_run) (opened_deltas es ds)
    where
      opened_deltas :
          (xs : List Event)
          → All (λ x. decode x ≡ delta next) xs
          → client_run (opened c) xs ≡ some (opened c)
      opened_deltas [] _ = refl
      opened_deltas (x ∷ xs) h =
          rw (delta_accepted (opened-Tracks t fits) x next h.0 (opened_at_next t), client_run)
            (opened_deltas xs h.1)
