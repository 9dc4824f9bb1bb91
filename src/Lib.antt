-- ===== src/Lib.antt =====
-- Verification of the web framework silent.
--
-- A server hands each request to a route tree. A `Route` is built by the application from paths,
-- handlers and middlewares, and is turned once into a `RouteTree`, which matches the request's path
-- segment by segment, binds parameters, runs the middlewares of the nodes it passes and calls the
-- handler for the method. A `NetServer` accepts the connections, and a request over HTTP/3 has its
-- body read while the tree answers it. silent-openapi documents the same routes. Middlewares, server-sent
-- events, the scheduler and the limits on WebTransport datagrams stand beside the tree and meet it
-- only in requests and responses.
--
-- Which file models which part:
--   Prelude, Text, Dict     shared helpers: native numbers, texts as lists of bytes, hash maps as
--                           association lists, and their laws
--   Core/Error              silent/src/error/mod.rs
--   Core/State              silent/src/configs/mod.rs
--   Core/PathParam          silent/src/core/path_param.rs
--   Core/Http               silent/src/core/request.rs, response.rs, res_body.rs
--   Core/Next               silent/src/core/next.rs and the traits of handlers and middlewares
--   Router/Slice            the `&str` helpers at the end of silent/src/route/route_tree.rs
--   Router/Number           `parse` of the integer types
--   Router/Segment          silent/src/route/handler_match.rs, `parse_special_seg`
--   Router/Tree             `RouteTree`, `call_path_only` and `bind_params`
--   Router/Dispatch         `call_children`, `call_with_path`, `path_can_resolve`, `call`, and the
--                           handler map of silent/src/handler/handler_trait.rs
--   Router/Route            silent/src/route/mod.rs, handler_append.rs
--   Router/Build            silent/src/route/route_service.rs; Router/Build/Refines sets the search of
--                           the tree against plain descents
--   Middleware/Cors, Compression, RequestId, RateLimiter
--                           silent/src/middleware/middlewares/cors.rs, compression.rs, request_id.rs,
--                           rate_limiter.rs
--   Sse/Event, KeepAlive    silent/src/sse/event.rs, keep_alive.rs
--   Scheduler               silent/src/scheduler
--   Static/Paths, Html      silent/src/handler/static/handler.rs, directory.rs
--   Static/Compression      silent/src/handler/static/compression.rs
--   Quic/Core               silent/src/server/quic/core.rs
--   Server/Net              silent/src/server/net_server.rs
--   Server/Http3            silent/src/server/quic/service.rs: Body is the reading of a request's body,
--                           Send the answer
--   OpenApi/Doc             silent-openapi/src/doc.rs
--   OpenApi/Convert, Operation, Collect
--                           silent-openapi/src/route.rs; Marks and Agree are on paths made of pieces
--   OpenApi/Document, PathDocs
--                           silent-openapi/src/schema.rs, route.rs
--   Tests                   the theorems at concrete inputs
--
-- How state and operations correspond. A struct is a record, an enum a data type, and an operation
-- is a function with the source's name that takes the state before and gives the state after. A
-- handler is a function of a request and a world `W`, the state of everything outside, to a result
-- and the world after it; a middleware takes the handler that `next.call` is. A panic (`unwrap`, a
-- slice out of range) is `none`. The accept loop with the tasks that it spawns is a step relation,
-- since clients, timers and the scheduling of tasks choose what comes next. A text is the list of
-- its bytes. A slice of the path is its address and its bytes, because `slice_range` computes with
-- addresses; a route tree's children are a list and are named by their index, as in the source.
--
-- What stands for code outside of the repository. `HeaderApi` is the header map of the http crate,
-- by the laws of its operations for names with one value. A `ForeignBody` is a body of another
-- crate, with the size that it gives of itself. `Platform` has the address of the request path's
-- buffer and of the literal "", the uuid crate's parser, and the order in which a hash map is
-- visited. `HeaderValues`, `Encoders` and `Values` say which texts are header values, and hold the
-- encoders and the number parser. `Float` is the arithmetic of the rate limiter's tokens, `PathsApi`
-- the paths of an OpenAPI document, and `MimeApi` what is read of a media type. The answers of a connection, of an event stream and of the clock
-- are arguments of the calls, and so are the answers of an HTTP/3 stream, the number of sends that
-- succeed, and the address of a handler. Time is a number, in the unit that each file names.
--
-- Bounds and fuel. `Route::new` calls itself on the rest of the path: its fuel is the length of the
-- path plus one, and each call takes a '/' away. A number is printed with fuel of its value plus
-- one, more than it has digits. A buffer is sent in chunks on fuel of its length plus one, and each
-- round takes a byte at least, unless the chunk size is 0. The conversion of a path for OpenAPI has
-- the fuel of its length plus one, and each round makes it shorter; so has the scan for parameters,
-- which takes a '<' away. Integers are unbounded but for the values that `parse` refuses, and for
-- the u64 sum and product of `refill`, which wrap and saturate.
--
-- What is not modelled: listeners, connections, gRPC, WebSocket and the rest of QUIC, which drive
-- other crates and do I/O; sessions, cookies, templates and security, which wrap other crates;
-- extractors, forms and serde; the reading of static files; the middlewares that forward to a timer,
-- an application function or a log; the freeze of a tree, which only copies nodes; the registration
-- wrappers that adapt typed functions; the pages and macros of silent-openapi and the schemas of
-- whole types, which utoipa makes.
pub mod Prelude
pub mod Text
pub mod Dict
pub mod Core
pub mod Router
pub mod Server
pub mod OpenApi
pub mod Sse
pub mod Middleware
pub mod Scheduler
pub mod Quic
pub mod Static
pub mod Tests
