-- ===== src/Context/Interactions.antt =====
-- Tool interactions in old_rust/crates/gateway-http-anthropic/src/context_management.rs: a tool use
-- with the results that name its id, by the positions of their blocks.
use cld_gateway.Base.{
  ℕ, suc, String, Option, none, some, List, [], ◌∷◌, ◌++◌, str_eq, length, if◌then◌else◌,
}
use cld_gateway.Base.Dict
use cld_gateway.Base.Dict.{Dict}
use cld_gateway.Anthropic.{AnthropicContent, AnthropicContentBlock, AnthropicMessage}
use cld_gateway.Context.Measure.{update_at}

-- A position is a message's index and a block's index in it.
pub record ToolInteraction : Type 0 where
  pub name : Option String
  pub tool_use : ℕ × ℕ
  pub tool_results : List (ℕ × ℕ)

-- The two variables of the loop that collects.
pub record Collected : Type 0 where
  pub interactions : List ToolInteraction
  pub by_call_id : Dict ℕ

abbrev pub add_interaction : ℕ × ℕ → Option String → Option String → Collected → Collected
add_interaction position name none c = c
add_interaction position name (some call_id) c = record {
  interactions =
      c.interactions ++ record { name = name; tool_use = position; tool_results = [] } ∷ [];
  by_call_id = Dict.insert call_id (length c.interactions) c.by_call_id;
}

abbrev pub push_result : ℕ × ℕ → ToolInteraction → ToolInteraction
push_result position i = record i { tool_results = i.tool_results ++ position ∷ [] }

abbrev pub push_at : ℕ × ℕ → Option ℕ → Collected → Collected
push_at position none c = c
push_at position (some index) c = record c {
  interactions = update_at (push_result position) index c.interactions;
}

abbrev pub add_result : ℕ × ℕ → Option String → Collected → Collected
add_result position none c = c
add_result position (some call_id) c = push_at position (Dict.get call_id c.by_call_id) c

-- The `match` on the block's type.
unfoldable pub collect_block : ℕ × ℕ → AnthropicContentBlock → Collected → Collected
collect_block position b c =
    if str_eq b.block_type "tool_use"
    then add_interaction position b.name b.id c
    else if str_eq b.block_type "tool_result"
    then add_result position b.tool_use_id c
    else c

unfoldable pub collect_blocks : ℕ → ℕ → List AnthropicContentBlock → Collected → Collected
collect_blocks message_index block_index [] c = c
collect_blocks message_index block_index (b ∷ bs) c =
    collect_blocks message_index (suc block_index) bs
      (collect_block (message_index, block_index) b c)

abbrev pub collect_content : ℕ → AnthropicContent → Collected → Collected
collect_content message_index (AnthropicContent.text s) c = c
collect_content message_index (AnthropicContent.blocks bs) c = collect_blocks message_index 0 bs c

unfoldable pub collect_messages : ℕ → List AnthropicMessage → Collected → Collected
collect_messages message_index [] c = c
collect_messages message_index (m ∷ ms) c =
    collect_messages (suc message_index) ms (collect_content message_index m.content c)

abbrev pub nothing_collected : Collected
nothing_collected = record { interactions = []; by_call_id = [] }

unfoldable pub collect_tool_interactions : List AnthropicMessage → List ToolInteraction
collect_tool_interactions messages = (collect_messages 0 messages nothing_collected).interactions
