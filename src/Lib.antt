-- ===== src/Lib.antt =====
-- A model of the parts of cld-gateway that carry its logic: a proxy that lets Claude Code, which
-- speaks Anthropic's Messages API, talk to the Codex backend of OpenAI. The Rust sources are in
-- old_rust/crates/. A request enters gateway-http-anthropic, which selects a branch of the
-- conversation in the store of gateway-state, sends a request with the client of
-- gateway-backend-codex, and turns each backend event into events of an Anthropic stream. When the
-- stream is over, it commits the turn to the branch.
--
-- Json                serde_json's `Value` and its accessors. An object is a BTreeMap, so the fields
--                     are in the order of the keys. serde_json itself (parsing, printing, derived
--                     decoding) is the parameter `Serde` of Codex.Serde.
-- Codex               gateway-backend-codex/src: types.rs (Types), tool_calls.rs (ToolCalls),
--                     output_text.rs (OutputText), backend_error.rs (Failure), and sse_unary.rs: the
--                     readers of `response.completed` (Completed) and the loop over a whole event
--                     stream (Unary), whose variables are the record `Reading`.
-- Anthropic           the messages, blocks and edits of gateway-http-anthropic/src/types.rs.
-- Context             gateway-http-anthropic/src/context_management.rs: sizes of messages and access to
--                     their blocks (Measure), the pairing of tool uses and results (Interactions), the
--                     clearing of tool blocks (Tools) and of thinking (Thinking), the choice of the
--                     edits, with types of gateway-core/src/config.rs (Policy), the editors and
--                     `ContextManager::apply` (Apply), and the report (Report). A position is the index
--                     of a message and that of a block. The other children hold proofs.
-- SchemaGate          gateway-backend-codex/src/schema_gate.rs: the schemas of a request's body are made
--                     strict, in one pass over the fields of each schema.
-- ToolArgs            gateway-http-anthropic/src/tool_arg_policy.rs; ToolArgs.Policies proves what the
--                     policies guarantee.
-- ResponseGate        gateway-http-anthropic/src/claude_response_gate.rs; laws in ResponseGate.Laws.
-- Bridge              gateway-http-anthropic/src/sse_bridge.rs: the builders of events (Event), the
--                     state of a stream (State), web searches (WebSearch), the handlers of single
--                     backend events (Handlers), and the end of a message with the dispatch
--                     (Complete). A handler takes the state and returns the events, the new state and
--                     the calls of the tool-call store that it makes. `extract_stream_delta_text`,
--                     which the source takes as a closure, is an argument.
-- Bridge.Protocol     an independent reader of message streams, which decodes an event from its name
--                     and payload and accepts the documented order. Its children prove that the
--                     bridge's events are accepted, handler by handler.
-- Conversation        gateway-state/src/conversation.rs: the data (Types), files, clock, UUIDs and
--                     failing calls as a state monad (Disk), the check of a branch against its ledger
--                     (Ledger), sessions and branches (Branches), the selection of a branch
--                     (Selection), the operations on one branch (Turns), the session lock with the
--                     quarantine (Lock), and the removal of old sessions (Cleanup). A directory is a record
--                     of what its files hold; a file that does not parse is `corrupt`. Each call of
--                     the file system may fail, by `faults` of the world; the theorems on what an
--                     operation leaves on disk are for worlds where none fails.
-- Base                shared names, lists, dictionaries, 64-bit saturation and functions of `str`.
--
-- Bounds. A block's index is a `u32` that saturates; the theorems on streams take as a hypothesis
-- that the blocks fit. The digits of a number n are computed with fuel n + 1, and
-- Base.Text.decimal_lem shows that this is enough. Token counts are `i64` with saturation. `usize`
-- has 64 bits; `sum` wraps, as it does in a release build. All other recursion is structural.
--
-- Not modelled: the HTTP handlers and the translation of requests of gateway-http-anthropic; the
-- transports of gateway-backend-codex; authentication, configuration files,
-- logging and network policy; the SQLite store of tool calls; and, of the conversation store, the
-- mutexes inside one process. These are input and output, or calls of libraries, or large
-- translations of request formats that no part above depends on. The Go program at the top of the
-- repository is a later rewrite, and is not modelled.
pub mod Base
pub mod Json
pub mod Codex
pub mod Anthropic
pub mod Context
pub mod ToolArgs
pub mod ResponseGate
pub mod SchemaGate
pub mod Bridge
pub mod Conversation
