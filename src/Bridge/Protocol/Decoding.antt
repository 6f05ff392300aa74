-- ===== src/Bridge/Protocol/Decoding.antt =====
-- What the reader decodes from the bridge's events.
use cld_gateway.Base.{ℕ, String, ◌≡◌, refl, Option, List}
use cld_gateway.Json.{Json}
use cld_gateway.Bridge.Event.{
  content_block_start_text, content_block_start_tool_use, content_block_start_thinking,
  content_block_start_server_tool_use, content_block_start_web_search_tool_result,
  content_block_delta_text, content_block_delta_thinking, content_block_delta_input_json,
  content_block_stop,
}
use cld_gateway.Bridge.Protocol.{start, delta, stop, decode}

pub decode-start_text : (i : ℕ) → decode (content_block_start_text i) ≡ start i
unfolding decode content_block_start_text
decode-start_text i = refl

pub decode-start_tool_use :
    (i : ℕ) (id name : String) → decode (content_block_start_tool_use i id name) ≡ start i
unfolding decode content_block_start_tool_use
decode-start_tool_use i id name = refl

pub decode-start_thinking : (i : ℕ) → decode (content_block_start_thinking i) ≡ start i
unfolding decode content_block_start_thinking
decode-start_thinking i = refl

pub decode-start_server_tool_use :
    (i : ℕ) (id : String) (query : Option String)
    → decode (content_block_start_server_tool_use i id query) ≡ start i
unfolding decode content_block_start_server_tool_use
decode-start_server_tool_use i id query = refl

pub decode-start_web_search_tool_result :
    (i : ℕ) (id : String) (results : List Json)
    → decode (content_block_start_web_search_tool_result i id results) ≡ start i
unfolding decode content_block_start_web_search_tool_result
decode-start_web_search_tool_result i id results = refl

pub decode-delta_text : (i : ℕ) (s : String) → decode (content_block_delta_text i s) ≡ delta i
unfolding decode content_block_delta_text
decode-delta_text i s = refl

pub decode-delta_thinking :
    (i : ℕ) (s : String) → decode (content_block_delta_thinking i s) ≡ delta i
unfolding decode content_block_delta_thinking
decode-delta_thinking i s = refl

pub decode-delta_input_json :
    (i : ℕ) (s : String) → decode (content_block_delta_input_json i s) ≡ delta i
unfolding decode content_block_delta_input_json
decode-delta_input_json i s = refl

pub decode-stop : (i : ℕ) → decode (content_block_stop i) ≡ stop i
unfolding decode content_block_stop
decode-stop i = refl
