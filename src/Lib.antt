-- ===== src/Lib.antt =====
-- novaboot: an HTTP application framework in C++. Modelled are the parts that decide, count and
-- bound: routing, the WebSocket transport, STOMP messaging over it, the allocators, HTTP headers and
-- cookies, and the middleware that limits, authenticates and authorizes.
--
-- Router (src/router/router.cpp, include/novaboot/router/): Router.Tree has the radix tree, its
-- `insert` and `search` and their WebSocket twins; Router.Table the class `Router` with `add_route`,
-- `add_websocket`, `match`, `match_websocket`, the route builder and route groups; Router.Params the
-- path parameters; Router.Method the methods and their names. A handler is a number, since the router
-- only stores it. Router.Patterns says which paths a pattern matches without the tree; Router.Finding,
-- Router.Insertion and Router.Reaching relate a search to it.
--
-- WebSocket (src/websocket/websocket.cpp, include/novaboot/websocket/websocket.h): WebSocket.Utf8 is
-- the validator of text, WebSocket.Utf8.Scalars the encoder that it is held to; WebSocket.Frame reads
-- a client's frame and writes the server's; WebSocket.Shared is the state that other threads reach,
-- and the transport's budget; WebSocket.Session is what an application sends with;
-- WebSocket.Registry the handles and the registry of sessions;
-- WebSocket.Connection has `feed`, `process_frame` and the closing. A connection owns a session, and
-- the session the shared state: the pointers to the shared state and the budget stand once. The
-- callbacks of the application are functions on the session and a parameter; what they are called
-- with is recorded. A method of the shared state holds its mutex from start to end, so concurrent
-- use is a sequence of calls. The loop of `feed` runs on fuel, the length of the input: each round
-- that goes on takes a frame of six bytes or more, and more fuel changes nothing.
--
-- Memory (src/memory/arena_allocator.cpp): Memory.Arena is the allocator over addresses, with `mmap`
-- a parameter; Memory.Region the ranges of addresses. What `mmap` is documented to return is the
-- hypothesis MapsFresh of Memory.Arena.Invariant. Memory.Pool is the allocator of equal slots of
-- include/novaboot/memory/pool_allocator.h, its free nodes a list of addresses.
--
-- Middleware (src/middleware/): Middleware.Concurrency is the limit on requests in progress, whose
-- permits are held between the two parts of `handle`; Middleware.RateLimit the store of the rate
-- limiter with its four algorithms, over times in nanoseconds, with the arithmetic of `double` a
-- parameter; Middleware.RateLimit.Store the entries and `acquire`; Middleware.Paths the allow list
-- that both share. Keys that a resolver computes are an argument. Middleware.Sessions has the session
-- store, the manager and its middleware, Middleware.Csrf the check of tokens, and
-- Middleware.Authorization the policies; Middleware.Forwarded reads the Forwarded header of trusted
-- proxies, with `inet_pton` a parameter and an `int` prefix that wraps; Middleware.SecurityHeaders adds headers to a response;
-- Middleware.BodySize is the limit on bodies. What the rest of the chain does with the request is a
-- parameter, or an outcome that says with what request it is called; random bytes and the comparison
-- in constant time, which OpenSSL does, are arguments too.
--
-- Http (src/http3/, include/novaboot/http3/): Http.Headers is the header map, Http.Messages the parts
-- of requests and responses that the middleware uses, Http.Cookies reads and writes cookies;
-- Http.Multipart parses forms (src/http/multipart.cpp), with the system's directory for temporary
-- files, which may throw, and the writing of such a file parameters; Http.Static answers with a file (src/http/static_resource.cpp), once the file system has
-- found it. The form parser has fuel for each part and each header line, which take two bytes or
-- more.
--
-- Messaging (src/messaging/stomp.cpp): Messaging.Escape has the escapes of header values,
-- Messaging.Decoder the decoder of STOMP frames and `serialize`, Messaging.Acks the deliveries that
-- wait for an acknowledgement, with `acknowledge`, Messaging.Authorization `frame_authorizer`.
-- Messaging.Broker is the class `SimpleBroker`, whose operations hold the lock, and
-- Messaging.Broker.Publish has `publish`, which claims its targets under the lock, sends without it, and takes it again to
-- record each delivery and to drop the sessions that are gone. Messaging.Endpoint is the class
-- `Endpoint` for one connection, Messaging.Endpoint.Frames its handlers, and
-- Messaging.Endpoint.Connections all connections with their heartbeats and the shutdown; other
-- sessions are reached through WebSocket.Registry's handles. The decoder's loops run on fuel, the
-- length of the input: each header line and each frame takes a byte or more.
--
-- Base has shared names, lists over the native numbers and texts as lists of bytes. Sizes are natural
-- numbers, bounded by 2^64 where the source casts or its sum could wrap; durations and file times
-- that are only printed are signed (Base.Integers).
--
-- Not modelled: the event loops, sockets, TLS, QUIC and the HTTP sessions, which drive sockets and
-- third-party libraries; the database, dependency injection and template-heavy headers; the
-- STOMP relay, JWT, the REST client, the actuator and the other middleware; the resolution of static
-- paths, which std::filesystem does; logging and metrics everywhere.
mod Base
pub mod Memory
pub mod Router
pub mod WebSocket
pub mod Middleware
pub mod Http
pub mod Messaging
