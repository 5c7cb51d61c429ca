-- ===== src/Lib.antt =====
-- Hexbuffer proxy: a model of the intercepting HTTP and HTTPS proxy in src/, and what holds of it.
--
-- The program. A client connects to the proxy. `handle_client` (src/proxy.rs) reads once and looks at the
-- bytes: a CONNECT request goes to `handle_https` (src/https_proxy.rs), all else to `handle_http`
-- (src/http_proxy.rs). `handle_https` asks the handler whether to intercept the host, and either copies
-- bytes or gets a certificate for the host from the authority (src/ca.rs) and serves the decrypted
-- requests by `handle_https_request`. Both paths show each request to the handler, forward it or answer
-- with what the handler made, and show the handler the response. A builder (src/builder.rs) makes one
-- handler of many, `HandlerStack`, behind a flag that switches interception on and off. WebSocket
-- connections are relayed (src/ws_proxy.rs). src/decoder.rs undoes content codings, as a handler too.
--
-- The files.
--   Prelude: shared names, Boolean tests, lists over native numbers, and `Outcome`: a call ends with a value,
--     an error, a panic, or the model's fuel runs out.
--   Text: the functions of Rust's `str` and `[u8]` that the code calls, on lists of bytes and of code points.
--   Error (src/error.rs); Http and Handler (src/handler.rs): a handler is a function that may change its
--     context and its world, and may fail.
--   Reader (the second half of src/proxy.rs): a stream is its bytes, how they are cut into reads, and how it
--     ends. Framing, Loops and Response are the code; Drain, Fill, Dechunk, Chunked, Unique, Bodies and Heads
--     say what it returns.
--   Wire (the first half of src/proxy.rs): messages from and to bytes; RoundTrip, Responses, Malformed and Switching
--     say what is read back.
--   Server: Conn (`write_body_to_stream`), Run (the state of serving a client), Send (src/upstream.rs), Host and Plain
--     (src/http_proxy.rs), Dispatch (`handle_client`), Tunnel and Session (src/https_proxy.rs), Upgrade
--     (`handle_https_websocket` of src/ws_proxy.rs), Client (all of one client's connection); Connect, Streaming,
--     Replies, Blocked, Refused, Forwarded, Exchanged, Switched, Framed, Unparsable, Relays,
--     Certified, Untunnelled, Intercepted, Answers, Answered and Tunnelled hold the theorems.
--   Builder (src/builder.rs; Accept is the accept loop), Decoder (src/decoder.rs), Ca (src/ca.rs; Threads has the
--     steps of calls of `forge_certificate` that overlap; Cache, Again and Overlap say what the authority keeps),
--     Ws (the rest of src/ws_proxy.rs), Dict (`HashMap`).
--   Inspector (examples/test_app): Clock, Traffic, Web, Requests (`InspectorHttpHandler`), Frames
--     (`InspectorWsHandler`), Dashboard (`handle_dashboard_request`), Triggers, Mock (its test server) and Main are
--     the code; Daytime, Window, Recent, Pending, Exchange and Toggle say what it does.
--   Logger (examples/proxy.rs): Handlers and Main are the code, Decision and Domains say what they do.
--   Tests: runs at concrete inputs.
--
-- Integers and fuel. `usize` has 64 bits, `u16` 16, and the numbers of requests wrap at 2^64. In the reader
-- `chunk_size + 2` wraps as in a release build. Each round of a reading loop takes at least one byte off
-- the stream or ends, so that one more round than there are bytes is enough. A read into an empty buffer looks
-- like the end of the stream.
--
-- Crates are interfaces with the documented laws that a proof uses: `HttpCrate`, `HttpSyntax` and
-- `SyntaxLaws` for http, `Codecs` for the compression crates, `CertTools` for rcgen, `Outside` for Hyper's
-- client and TCP, `WebSockets` for tungstenite. The messages of a relay, in the order in which `select!` takes them, are
-- a parameter: behind a plain HTTP request it is a function of the bytes that are left on the server's stream. A write
-- on a connection can fail after any number of bytes.
--
-- Not modelled: the TLS handshake (how it ends is an input) and Hyper's server, the copy loops of a passthrough and of
-- `relay_websocket`, the settings of Hyper's client, the listeners of the examples and their banners, and
-- tests/. A task that is spawned is known by what it is called with. Calls that overlap are modelled for
-- the cache of an authority and for the memory of the demonstration application.
pub mod Prelude
pub mod Text
pub mod Error
pub mod Reader
pub mod Http
pub mod Handler
pub mod Dict
pub mod Ca
pub mod Builder
pub mod Decoder
pub mod Ws
pub mod Inspector
pub mod Logger
pub mod Wire
pub mod Server
pub mod Tests
