-- ===== src/Lib.antt =====
-- sf-rs: peer identifiers, the signalling server of a peer-to-peer network, and its metrics.
--
-- The program. Peers connect to a server by WebSocket (sf-server). A connection brings the
-- identifier of its peer in a header or in the query (extract_peer_id.rs), is registered under it
-- (state.rs), and from then on its frames are parsed as requests (sf-protocol), which the server
-- forwards to one registered peer or to all of them. What a peer is to receive goes through a
-- bounded channel of its handler (peer_handler.rs), from which the connection's loop writes it to
-- the socket (ws.rs). Identifiers are byte strings of a bounded size (sf-peer-id) with a text
-- form, a binary form and a serde form. The events carry session descriptions and ICE candidates
-- (sf-webrtc). What the server does is counted by sf-metrics. A browser client keeps tables of its
-- peers and callbacks (sf-wasm); a node (sf-node) dials and listens over WebTransport
-- (sf-wt-transport).
--
-- The files.
--   Prelude: Boolean tests, lists, results that may panic (`Outcome`), bytes, integers, counters
--     by label, and the interface of a hash map (Maps/Interface) with an association list that
--     meets it (Maps/Assoc).
--   PeerId: sf-peer-id/src. Errors is error.rs, Hex is hex.rs, Serde is serde.rs; Base, Text,
--     Random and Binary are the parts of peer_id.rs: the type with its equality, hash and order;
--     `FromStr`, `Display` and `Debug`; `random`; `from_bytes` and `write`. NoStd is its `read_u8`
--     without std. Parsing, RoundTrip, Encoding and SerdeLaws have the proofs.
--   Webrtc: sf-webrtc/src. Sdp is sdp.rs and sdp_type.rs, Ice is ice.rs, Errors is errors.rs and
--     Servers is ice_server.rs. Events is the macro of data_channel/futures.rs and
--     peer_connection/futures.rs, Streams and Gathering the streams of these two. Channel is
--     data_channel/mod.rs with the proofs in Traffic; Connection is peer_connection/mod.rs, and
--     Signaling has the rules of the browser that the exchange of descriptions relies on.
--   Protocol: sf-protocol/src/peer_event.rs and peer_request.rs.
--   Server: sf-server/src. Startup is server.rs, builder.rs and the building of main.rs, with
--     proofs in Serving. Handler is peer_handler.rs, socket_metadata.rs and error.rs; State is
--     state.rs; Ws is ws.rs; Extract is extract_peer_id.rs. Delivery, Registry and Race are about
--     state.rs, Incoming about peer_handler.rs, Identity about extract_peer_id.rs, and Session
--     about a whole connection, ws.rs and state.rs together. Spec is the abstract registry, and
--     Refinement relates state.rs to it.
--   Metrics: sf-metrics/src/inmemory. Labels, LabelOrder and Export are common.rs and the printing
--     of implementation.rs; Storage and Handles are the maps of implementation.rs and the handles
--     of counter.rs, gauge.rs and histogram.rs; Float, Buckets, Sorted, Search, Locating and
--     Values are the arithmetic of the values and histogram.rs; Reading observes and reads by
--     name.
--   Transport: sf-wt-transport/src, sf-core/src and sf-node/src. Address is the conversions of
--     lib.rs and listener/native.rs, Stream and Writes are stream.rs, Polling the polling of
--     listener/native.rs, Listening that of lib.rs, and Node and Events are node.rs. Platform is
--     platform/native.rs and the making of a listener, Dialing the future of `dial` and
--     connection.rs, Building the rest of sf-node. Opening, Announcing, Trust and Urls have proofs
--     about these.
--   Wasm: sf-wasm/src. PeerManager is peer_manager.rs, Callbacks is callback.rs, Peer is peer.rs
--     and Socket is websocket.rs. Client, Events and Notify are client.rs, with proofs in
--     ClientLaws and Heard; what a client needs of a peer is the record `PeerOps`, which Peers fills from
--     Peer. Handshake and Trickle are about the exchange of offers, answers and candidates.
--   System: the parts together. Relay follows an event from one client through the server to
--     another, Identity a client's identifier from its drawing to its registration.
--
-- The modelling. A function that mutates takes the state and returns the new one. A `Result` is an
-- `Outcome`, which has a third case for a panic: an index out of range, an `unwrap` or an
-- `unreachable!`. A string is the list of its UTF-8 bytes. A `u8` is a number, with `% 256` where
-- the source casts; the `u64` of a histogram wraps. The capacity of an identifier is an argument;
-- the server uses 32 bytes. What a poll finds ready is an argument of it. The loop of a listener
-- has what is left of the budget of tokio's task as fuel: without it the accept channel says that
-- it is pending, so the loop returns. The clock is the time since the Unix epoch, or nothing before
-- it. A task that the server spawns is recorded in `spawned`; its `send` is modelled apart. The
-- `select!` loop of a connection is given the sequence of its turns, of any length. A finite `f64` is an integer multiple of 2^-1074, the two zeroes are one, and rounded
-- addition is a parameter; the gauge and the counters of the server are exact.
--
-- Parameters. The hash maps (dashmap), the varint codec (unsigned-varint), JSON, and `to_str` of a
-- header value are arguments; the laws that are assumed of the first two are the records `MapLaws`
-- and `VarintLaws`, and the modules Tests have an instance of each. `sort_unstable_by` is an
-- insertion sort: its result is determined where no two different elements compare equal. The loop
-- of the standard library's binary search has the size of the slice as fuel; it halves the size,
-- so that is enough.
--
-- tokio's channels are the record `ChannelOps`, and `ChannelLaws` is what Relay relies on of them.
-- The network is a parameter: the sockets and routers of the server are the records `SocketApi`
-- and `RouterApi`, what opening a listener and dialing use the records `QuicApi`, `DialApi` and
-- `SessionApi`. The text of a v6 address is a parameter as well. A web server that was started is
-- an entry in a list.
--
-- The browser is a parameter: its channels, connections and their promises are the records
-- `ChannelApi` and `ConnectionApi`, the rules of signaling the records `Signaling` and
-- `SignalingLaws`, and Wasm/Browser has an instance of them. What a call of a callback gives is a
-- parameter too. A promise is awaited at once: two methods of one peer do not interleave.
--
-- Not modelled: the command line of the server and the start-up of the browser client's metrics;
-- the forwarding of polls and addresses in sf-node; sf-wt and sf-viz; logging; the bindings and
-- conversions to JavaScript values; the texts of error messages.
pub mod Prelude
pub mod PeerId
pub mod Webrtc
pub mod Protocol
pub mod Server
pub mod Metrics
pub mod Transport
pub mod Wasm
pub mod System
