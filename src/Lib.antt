-- ===== src/Lib.antt =====
-- A model of haentgl, a proxy for MySQL databases. A client speaks the MySQL protocol to the proxy;
-- the proxy parses its packets, finds the tenant in the user name, selects a backend, takes a
-- connection from that backend's pool and forwards packets both ways. A control plane tells the
-- proxy which backends exist, and asks it which users were active.
--
-- The parts, by the directory of the code:
--   * src/proxy/src/backend/mod.rs (tenant keys): Backend/Tenant. A text is the list of its code
--     points; lengths and slices are in UTF-8 bytes, and a slice off a boundary is a panic (`none`).
--   * src/proxy/src/backend/backend_mgr.rs (the pools by instance): Backend/Manager. The state is
--     the concurrent map and the pools that were closed; each notified instance is one step.
--   * src/proxy/src/backend/backend_discovery.rs (the lists of the tenants' backends):
--     Backend/Discovery, with the states it gets into in Backend/Discovery/Reached.
--   * src/proxy/src/backend/router (the selectors): Backend/Router, on the tenants of the discovery.
--   * src/proxy/src/backend/control_plane_resolver.rs (`get_cp_backend`): Backend/Resolver.
--   * src/proxy/src/protocol/mysql/packet/mod.rs (`packet` and the packet kinds): Protocol/Packet.
--   * src/proxy/src/protocol/mysql/packet/packet_writer.rs (`PacketWriter`): Protocol/Writer.
--   * src/proxy/src/protocol/mysql/packet/packet_reader.rs (`PacketReader::next_async`):
--     Protocol/Reader. The reader calls `packet` on what it has buffered.
--   * src/proxy/src/cp/active_users.rs (`SwitchableMaps`, `UserActivityWindow`): Cp/Activity. Loads,
--     exchanges and map operations are separate steps, so that Cp/Activity/Race can put a step of
--     another thread between two of them.
--   * src/proxy/src/protocol/mysql/error_codes.rs (`ErrorKind`): Protocol/Errors.
--   * src/proxy/src/protocol/mysql/packet/writers.rs (the packets that the proxy writes itself):
--     Protocol/Writers, on top of the writer.
--   * src/proxy/src/protocol/mysql/charset.rs (the tables of collations): Protocol/Charset. A map that
--     is filled once is the list of its inserts.
--   * src/proxy/src/protocol/mysql/basic.rs and constants.rs (length-encoded numbers, OK packets,
--     command codes): Protocol/Basic, Protocol/Constants.
--   * src/proxy/src/server/forwarder (the forwarders): Server/Forwarder for queries; Server/Commands
--     for the rest. Server/Forwarder/Answer is the grammar of a backend's answers by their bytes, apart
--     from the program's readers, which Server/Forwarder/Relay/Spoken compares with it.
--   * src/proxy/src/server/haentgl_server.rs (`on_com`): Server/Commands, with whole sessions in
--     Server/Commands/Session: the answers of each command by its byte, which Session/Routes compares
--     with the program's choice of a forwarder. The four ends of the two connections are sources and sinks of packets;
--     Protocol/Link states what the server needs of them, and Protocol/Link/Packets makes the packet
--     reader a source and the packet writer a sink.
--   * src/proxy/src/server/auth/authenticator.rs (the switch of plugins): Server/Auth; `connect` of
--     haentgl_server.rs: Server/Connect, with the life of a pooled connection in Backend/Pool
--     (src/proxy/src/backend/pool).
-- Prelude holds what they share: tests, lists, words of 8 bits, and texts.
--
-- Code outside the repository is a record of operations and documented laws under Extern, with a
-- concrete instance beside it: hex, winnow's parsers over complete slices, byteorder, tokio's
-- streams, DashMap, and of mysql_common the flags, the length-encoded integers and the packets
-- (Extern/MysqlPackets, by the fields that the program gives and takes); what the server calls besides
-- is Server/Environment. The connection pools of deadpool are an argument of the manager.
--
-- Numbers are natural numbers; 8-bit sums wrap, as in the release profile, where the code adds
-- without a check. A panic is `none` or a constructor of its own.
--
-- Loops: the loop over full packets has the length of the input as fuel, and each round takes four
-- bytes at least; `chunks` has the length of the buffer; the read loop of `next_async` takes its
-- fuel from the caller, and more than the number of bytes still to come is enough, as the theorem
-- on it shows. The loops of the forwarders and of `on_com` spend fuel on packets.
--
-- Not modelled: the blocking `next_read`, TLS, the initial handshake with the parser of the client's
-- response, the static proxy, the retry loop of the discovery, the refresh of the resolver, the
-- messages that prost generates, the web service, metrics, profiling and the command line.
pub mod Prelude
pub mod Extern
pub mod Backend
pub mod Protocol
pub mod Cp
pub mod Server
