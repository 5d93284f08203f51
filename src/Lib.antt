-- ===== src/Lib.antt =====
-- xray-bridge: an HTTP server that turns each request into at most one gRPC call to an Xray node.
--
-- A request passes the router (src/routes/mod.rs), then the extractors of its handler in the order
-- of the handler's parameters: `NodeContext` (src/nodes.rs) takes a client for the node that the
-- X-Node headers name from a pool of channels that all requests share, `BearerAuth` (src/auth.rs)
-- compares the bearer token, and axum's own extractors read the path, the query and the body. The
-- handler (src/routes/handler.rs, stats.rs, routing.rs) calls one function of src/xray/, which sends
-- one RPC with the node's token as metadata, and answers with JSON; src/error.rs turns each error
-- into an answer.
--
-- Which file models which part:
--   Nodes.antt            src/nodes.rs: XrayClientCache::new is `new`, get_or_create is
--                         `get_or_create`, NodeContext::from_request_parts is `node_context`
--   Auth.antt             src/auth.rs: BearerAuth::from_request_parts is `bearer_auth`
--   Error.antt            src/error.rs
--   Config.antt           src/config.rs
--   Proto.antt            the messages under proto/, with the fields that the program uses
--   Grpc.antt             the RPCs with their replies; `add_token` stands for the copies of add_token
--                         in src/xray/handler.rs, stats.rs and routing.rs
--   App.antt              the state of the server, the pool and the RPCs that were sent so far, and
--                         the steps of a handler as functions from a state to an outcome and a state
--   Xray/Account.antt     src/xray/account.rs
--   Xray/Handler.antt     src/xray/handler.rs
--   Xray/Stats.antt       src/xray/stats.rs
--   Xray/Routing.antt     src/xray/routing.rs
--   Routes/Extract.antt   the extractors in front of the handlers
--   Routes/Handler.antt   src/routes/handler.rs; Routes/Handler/Config.antt its JSON conversions
--   Routes/Stats.antt     src/routes/stats.rs
--   Routes/Routing.antt   src/routes/routing.rs
--   Routes/Body.antt      the defaults of the bodies and queries in src/routes/handler.rs, stats.rs
--                         and routing.rs
--   Routes/Serve.antt     the endpoints, and the answer to a request that is sent to one
--   Routes/Serve/Talk/Spec.antt, Replies.antt
--                         a specification apart from the code: the RPC that each endpoint asks its
--                         node for, and the answer that it makes of the reply
--   Routes/Path.antt      the paths that a route stands for, as axum documents them
--   Routes/Router.antt    src/routes/mod.rs: build_router is `build_router`, the table of routes;
--                         `dispatch` sends a request to an endpoint, for GET and, as axum
--                         documents, for HEAD, whose answer `for_method` leaves without a body
--   Routes/Router/Paths.antt
--                         the paths that the bridge knows, apart from the table of routes
--   Xray/Account/Kinds.antt
--                         the account types and the numbers of securities and ciphers, after proto/
--   Main.antt             src/main.rs: main is `main`; AppState::new of src/nodes.rs is `app_state`
--   Main/Transcript.antt  a specification of a run: what callers, server and nodes exchange
--   Error/Reference.antt  the table of errors in README.md
-- The files below these hold their theorems. Prelude, Text, Json and Outcome hold what all parts
-- share, Tests the runs on sample services, and Tests/Source the unit tests of src/, run on the model.
--
-- How the code corresponds: a Rust string is the list of its UTF-8 bytes; a `Result` with `?` is a
-- chain of steps; a panic is an outcome of its own, so that its absence can be stated; an `.await`
-- on a node is a question to an oracle that sees all earlier RPCs. The mutex of the pool makes each
-- call of get_or_create atomic, and a handler touches the pool once, before it awaits anything: so
-- requests in flight are steps of two kinds, the taking of a client and the rest of the handler,
-- that interleave freely (Routes/Serve/Flight.antt). A handler takes the step that gives its
-- client as an argument, `context`. Records keep the source's field names.
--
-- What is a parameter (Extern.antt, `Platform` in App.antt): the case mappings of Unicode, of which
-- only the ASCII part is assumed; HeaderValue::to_str; the lru crate, described by what `iter` shows
-- after each call; tonic's URIs, endpoints and channels, of which nothing is assumed; metadata
-- values; prost's encodings, which a decoder reads back; base64; the nodes; axum's search for a
-- route (`Axum` in Routes/Router.antt), which finds a route that the path fits if there is one, and
-- a route without captures before the others; the environment and the socket of `main`. That axum
-- puts the methods of one route together, and lets a GET handler answer HEAD, is written out as
-- axum documents it.
--
-- Bounds: the printing of a number runs on fuel of one more than the number, which is at least the
-- number of its digits. A port is below 65536 by the parser that reads it. Every other loop is
-- structural.
--
-- Not modelled: the set-up of logging and the loading of .env in src/main.rs, src/proto.rs and
-- build.rs (generated code), the check of the table of routes that axum makes at the start, serde's
-- own errors beyond the status of the rejection, log output, CI and scripts. The time that constant_time_eq takes is outside the model.
pub mod Prelude
pub mod Text
pub mod Json
pub mod Extern
pub mod Error
pub mod Outcome
pub mod Auth
pub mod Config
pub mod Nodes
pub mod Proto
pub mod Grpc
pub mod App
pub mod Xray
pub mod Routes
pub mod Main
pub mod Tests
