-- ===== src/Lib.antt =====
-- meshbus-rs: a message bus that carries byte streams and datagrams from sources to exits, over
-- several paths, with a kernel of verified hook pipelines.
--
-- The parts modelled, and how they interact:
-- * Kernel (crates/mesh-bus-core/src/kernel). `Kernel.Types` is the data. `Kernel.Registry` is `verify`
--   (registry/data_handle.rs, registry/id_shape.rs): it checks a registry of sources, sinks, hooks,
--   pipelines and wirings once, before it is used. `Kernel.Pipeline` is the interpreter
--   (pipeline/data_handle.rs), which asks a resolver for each hook's answer and follows jumps.
--   `Kernel.Compiled` (compiled.rs) interns the names of a verified registry into slots and runs the
--   pipelines on the slots. `Kernel.Dispatch` (compiled.rs, dispatch.rs, dispatch_forwarder.rs) computes
--   the order of the egresses that a frame is sent to. `Kernel.SourceActivity` (source_activity.rs) is
--   the table of open flows by source, which schedulers are shown.
-- * MeshProto (lib/mb-proto-mesh/src): the wire types that the endpoints use, and in
--   `MeshProto.Replay` the replay windows of replay.rs: a ring of bits for each peer, epoch and salt.
-- * Reorder (lib/mb-reorder/src/lib.rs): `Reorder.Buffer` is `ReorderBuffer`, whose lazy iterator is a
--   sequence of polls; `Reorder.Family` is `FamilyReorderState`, which delivers the packages of a family
--   in order and reports what is missing.
-- * MeshControl (lib/mb-mesh-control/src/lib.rs): the path controller, to which the acknowledgements of
--   the receiving family come; `MeshControl.Rtt` is about its estimator.
-- * Health (lib/mb-health/src/lib.rs): `ExitHealthTable`, which keeps failing exits from being tried.
--   `Health.Outcomes` and `Health.Refusal` tell from the outcomes recorded when it does.
-- * LoadBalance (lib/mb-loadbalance/src/lib.rs): the weighted round robin and the consistent hash, by
--   which schedulers choose among candidates.
-- * Endpoint (lib/mb-endpoint/src/lib.rs): hosts with ports, and their texts.
-- * Socks5 (lib/mb-proto-socks5/src/lib.rs): the messages of the SOCKS5 ingress and egress.
--   `Socks5.Address` is the address that the messages share, which becomes an endpoint; `Greetings`,
--   `Requests`, `UserPass` and `Datagrams` are the messages; `Lengths` is about the length of a reply.
-- * Rules (lib/mb-rule/src): the data of types.rs, and of data_handle.rs in `Rules.Eval` the decision
--   for a flow, in `Rules.Validate` the checks of a chain, in `Rules.Load` the registry of rulesets,
--   which rules ask for members. A list inside `MatchExpr` or `Action` is a data type of its own.
-- * Quic (lib/mb-quic/src): `Quic.FlowControl` (flow_control.rs), `Quic.Streams`, `Quic.Recv`,
--   `Quic.Send` and `Quic.Table` (stream.rs, datagram.rs), `Quic.Varint` (packet.rs) and
--   `Quic.Frames` (frame.rs), which `Quic.FrameRoundTrip` is about. `Quic.InOrder` and
--   `Quic.EndToEnd` are about both ends of a stream. `Quic.Recovery` and `Quic.Loss` (recovery.rs) are
--   the estimate of the round trip, the congestion window and the packets in flight; `Quic.Congested`
--   is about the first two.
-- * Dns (lib/mb-proto-dns/src): the data of types.rs; `Dns.Names` is the reading of compressed names and
--   `Dns.Decode` of messages (decode.rs), `Dns.Encode` writes them (encode.rs), and `Dns.Framing`
--   (framing.rs) puts them on a stream.
-- * Pool (lib/mb-pool/src/lib.rs): idle connections that are lent and given back by concurrent tasks, as
--   a state and the steps of the tasks.
-- Prelude and Bits hold what they share: maps as association lists, texts as lists of bytes, results
-- with `?` as a monad, and bits of numbers.
--
-- State is passed explicitly: a `&mut self` method returns the next state, and `&mut` arguments are
-- threaded. A panic is `none` where the code can panic. Machine integers are natural numbers; where the
-- code's arithmetic can wrap or saturate (`MeshControl`, `Health`), that is written out. Sequence
-- numbers and counters are below 2 ^ 64 and only incremented; that they reach it is not modelled.
--
-- Bounds and fuel: the interpreter's loop runs `max_jump_depth + 1` rounds, which the code counts too.
-- The delivery loop of a family has a round for each buffered package, which is enough, since each
-- round removes one. The search for jump cycles has a level for each pipeline; each level colours one
-- more, and an error of its own, `stuck`, stands for running out of levels.
-- The loop over the labels of a DNS name has a round for each byte and one more, afresh after each
-- pointer, of which the code follows 16; between two pointers each round moves on in the buffer. The
-- loop over the segments of a TXT record has a round for each byte of the record.
--
-- The round robin has a round for each candidate and one more, after which each has been met with a
-- fresh counter; without a weight the code's loop has no end.
--
-- Parameters: a hook is any function on event and context; an egress is its name and capabilities; a
-- scheduler is any function from the candidates to a decision, and the comparison of its scores any
-- test; a hasher is any function to numbers; the texts of IP addresses, membership in
-- networks, regular expressions, the removal of white space and the reading of files are functions of a
-- record, with laws where a theorem needs them.
--
-- Not modelled: asynchronous sending and receiving, sockets, cryptography, serialization,
-- configuration and metrics, which are calls of libraries or of the operating system; the codecs
-- and protocols of the other crates; of lib/mb-quic the connection and the packets, and of
-- lib/mb-rule the YAML parser. Offsets in a QUIC stream are below 2 ^ 62 and their sums are not wrapped.
pub mod Prelude
pub mod Bits
pub mod Kernel
pub mod MeshProto
pub mod MeshControl
pub mod Reorder
pub mod Endpoint
pub mod Socks5
pub mod Rules
pub mod Quic
pub mod Dns
pub mod Pool
pub mod Health
pub mod LoadBalance
