-- ===== src/Lib.antt =====
-- Verification library of rust-proxy, a SOCKS5 proxy of three parts: a gateway that speaks SOCKS5 with
-- the clients, nodes that carry the connections, and a control plane that knows the nodes.
--
-- Base holds the shared names: lists and tests on native numbers, results, integers and the casts
-- between machine integers (Base/Int), the bytes of a word (Base/Bits), UTF-8 (Base/Utf8).
--
-- Protocol models crates/protocol/src, the messages that the gateway and the nodes exchange:
--   Protocol/Error, Protocol/Constants: error.rs and constants.rs
--   Protocol/Reader: reader.rs; a parser is an action on the cursor that stops at the first error.
--     Reader/Stream relates such an action to a grammar over lists of bytes, Reader/Incremental
--     says what a grammar does on a part of its input.
--   Protocol/Host: host.rs; `write` works on a buffer, and a panic is `none`. Host/Layout has the wire
--     form of an address.
--   Protocol/Command, Protocol/Request: request.rs. Request/Frame has its grammar.
--   Protocol/Handshake, Protocol/Auth, Protocol/Reply: handshake.rs, auth.rs, reply.rs
-- Bytes are numbers, strings are the lists of their bytes, and lengths are below the size of a 64-bit
-- `usize`; the hypotheses on lengths say so.
--
-- ControlPlane models crates/control-plane/src:
--   ControlPlane/Float: the operations of `f64`, an interface without laws
--   ControlPlane/Model, ControlPlane/Health: model.rs and health.rs; Health/Classified has the state
--     after a sequence of heartbeats.
--   ControlPlane/Routing: routing.rs, the score of a node and the selector
--   ControlPlane/Bandwidth: the allocator of bandwidth.rs, one call at a time, and in
--     Bandwidth/Threads the loop of `try_reserve` by its atomic operations, with any number of
--     threads; the counter is one atomic object, so relaxed ordering does not matter.
--     Bandwidth/Limiter is the rate limiter; the clock and the conversions to and from seconds are
--     parameters.
--   ControlPlane/Registry: registry.rs and migrations/0001_init.sql; a statement is a function on
--     the rows, and a schedule says of each statement whether it fails and at what time it runs.
--     SQLite's arithmetic on stored values and chrono's instants are the parameter Platform.
--   ControlPlane/Service: service.rs on that table; Service/Reserve has the map of allocators and the
--     selection that reserves bandwidth.
--   ControlPlane/Api: api.rs, the handlers of the HTTP interface as functions on the table
--   ControlPlane/Server: server.rs, the policy of the interface and the loop of the sweep
--   ControlPlane/System: the tables that the statements of the handlers and of the sweep can reach, in
--     any interleaving, with what holds of their rows and what the handlers answer on them
-- A guard of `select_with_bandwidth` releases its reservation by `drop_guard` of Bandwidth.
--
-- Session models what crates/gateway/src/handler.rs and crates/node/src/handler.rs have in the same
-- words, the server's side of SOCKS5 with one peer:
--   Session/Socket: a stream with deadlines. The bytes that the peer will send are given, and a schedule
--     says of each operation whether it is served, times out or breaks, and after how many bytes.
--   Session: the greeting, the authentication and the request, over the error type of either handler
--   Session/Exchange: what an action takes from the peer and gives to it when it succeeds; a run is a
--     composition of exchanges. Session/Moves and Session/Complete treat a stream without faults.
-- Gateway models crates/gateway/src:
--   Gateway/Handler: handler.rs from the request to the relay; the dial, the selection by the control
--     plane and the copying of bytes are parameters, since tokio and reqwest are not code of the
--     repository. Gateway/Chain is the conversation with a node, Gateway/Tunnel puts client, gateway and
--     node together, Gateway/Relayed treats streams with faults.
--   Gateway/Server: gateway.rs; the tasks of the accepted clients and the shutdown as steps in any order,
--     and the wait for the tasks.
-- NodeAgent models crates/node/src:
--   NodeAgent/Handler: handler.rs after the request; the dial stands for writing the address out,
--     resolving it and connecting.
--   NodeAgent/Server: server.rs; the tasks of the accepted connections, the shutdown and the heartbeats
--     as steps on shared state, in any order.
--
-- Network puts the control plane behind its clients: NodeAgent/CpClient (node/src/cp_client.rs) and
-- Gateway/ProxyClient (gateway/src/proxy_client.rs) send requests through an HTTP library, which is
-- the parameter Base/Http; that a request is delivered to its handler, by the network, the routes of
-- axum and JSON, is a hypothesis.
--
-- Metrics is about Gateway/Metrics and NodeAgent/Metrics (metrics.rs and `handle_connection` of both): the
-- calls that a connection makes of the metrics library, and connections that make them in any order.
--
-- Loops are over lists, so there is no fuel. Two loops of the code may go on without end: `try_reserve`
-- may be outrun by other threads, and Threads describes it step by step; `acquire` of the limiter is
-- run over the readings of the clock that are given, and may still be asleep after them.
--
-- Not modelled: the router table and the start of the control plane (control-plane/src/api.rs,
-- server.rs), the exposition of the metrics and the gauges of the control plane, configuration files, logging and the command line.
mod Base
pub mod ControlPlane
pub mod Gateway
pub mod Metrics
pub mod Network
pub mod NodeAgent
pub mod Protocol
pub mod Session
