-- ===== src/Lib.antt =====
-- The family VPN: the node daemon, its encrypted connection, and the protocols between nodes.
--
-- A node runs as a server or as a client. A client dials the server, says hello, gets an address of
-- 10.8.0.0/24, and then both carry IP packets between a TUN device and the connection, with control
-- messages in the same stream. The server keeps a registry of its clients and a table of their
-- intents, by which it invites a client that was routing to route again. A client can send all its
-- traffic through the VPN, which changes the machine's default route, and reconnects when its
-- connection fails.
--
-- The modules, and the code they model:
--   Base              lists, strings as lists of bytes, maps as association lists, results
--   Wire              the big-endian lengths and io.ReadFull of protocol/vpn.go and tunnel/conn.go
--   Tunnel/Crypto     internal/tunnel/crypto.go: NewCipher, Encrypt, Decrypt, Overhead
--   Tunnel/Conn       internal/tunnel/conn.go: what Dial and Accept build, WritePacket, ReadPacket;
--                     its proofs are in Conn/Framing
--   Tunnel/Packet     internal/tunnel/tun.go: IsValidIPPacket, GetDestinationIP
--   Tunnel/Routing    internal/tunnel/tun.go: GetDefaultGateway, RouteAllTraffic, RestoreRouting and
--                     Reconfigure, command by command; Routing/Default and Routing/Restore have the
--                     laws of the machine and the proofs
--   Protocol/Types    the messages' data
--   Protocol/Handshake internal/protocol/vpn.go: WriteHandshake, ReadHandshake, WriteAssignedIP,
--                     ReadAssignedIP
--   Protocol/Control  internal/protocol/vpn.go: the control messages; proofs in Control/RoundTrip
--   Store/Clients     internal/store/store.go: the client_states table and its operations;
--                     Clients/Intent has the protocol that the table implements
--   Store/Rows        WHERE, COUNT(*) and ORDER BY over lists of rows
--   Store/Logs        internal/store/store.go: WriteLog, its subscribers, retention and the storage
--                     limit; proofs in Logs/Table, Logs/Eviction and Logs/Subscribers
--   Store/Metrics     internal/store/store.go: the metrics' tables, retention and aggregateMetrics;
--                     proofs in Metrics/Groups, Metrics/Aggregation and Metrics/Retention
--   Store/Lifecycle   internal/store/store.go: the lifecycle events and GetCrashStats; proofs in
--                     Lifecycle/Statistics
--   Store/Handshakes  internal/store/store.go: the handshakes; proofs in Handshakes/History
--   Store/Queries     internal/store/query.go: QueryLogs and Tail, with their pages in Queries/Pages;
--                     Queries/MetricSeries has QueryMetrics and GetLatestMetrics
--   Store/TimeRange   internal/store/timerange.go; proofs in TimeRange/Matching and
--                     TimeRange/Parsing
--   Store/Collector   internal/store/collector.go: BandwidthTracker; Collector/Sources has
--                     StandardMetrics and Collector; proofs in Collector/Window, Collector/Peak and
--                     Collector/Rows
--   Node/Address      internal/node/daemon.go: assignIP; proofs in Address/Search, Address/Cases,
--                     Address/Pool
--   Node/Topology     internal/node/topology.go: every method that changes or reads the graph;
--                     Topology/Distances and Topology/Walks have the search
--   Node/Server       internal/node/daemon.go: handleVPNClient, handleClientPackets,
--                     handleServerControlMessage, routeTUNPackets, broadcastPeerList,
--                     broadcastRestartNotification; proofs in Server/Registry, Server/Delivery,
--                     Server/Stale, Server/Invites, Server/Crash and Server/Goodbye
--   Node/Client       internal/node/daemon.go and internal/node/control.go: EnableRouteAll,
--                     DisableRouteAll, handleReconnectInvite, handleConnect, handleDisconnect;
--                     Client/Forward has the forwarders and handlePeerListMessage, Client/Start
--                     startClient and completeClientSetup, Client/Reconnect the failure monitor,
--                     attemptReconnect and shutdownWithReason
--   Node/Control      internal/node/control.go: the handlers of handshakes and lifecycle events;
--                     Control/Reports has those of logs, statistics and crashes, Control/Dispatch
--                     the switch and the loop over a connection's lines; proofs in Control/History
--                     and Control/Answers; Control/Peers has the status and the lists of peers
--   Cli/Client        internal/cli/client.go: NewClient, call and the methods; Client/Served puts
--                     the client on a connection to a daemon
--   Cli/Format        cmd/vpn/main.go: formatBytes, truncate; proofs in Format/Scale
--   Cli/Diagnostics   cmd/vpn/main.go: checkNetworkPeers and the summary; proofs in Cli/Versions
--   Node/Deploy       internal/node/deploy.go: the files, the version check and git pull;
--                     Deploy/Rollout has the builds, the broadcast, the restart and the handlers;
--                     proofs in Deploy/Versions, Deploy/Updates and Deploy/Restart
--   Examples          small inputs, and the theorems at them
--
-- A byte is a natural number, and so is a connection, which stands for its identity. The unsigned
-- counters wrap at 2^64 and the length prefixes at 2^32, as in Go. A function that changes the
-- daemon's state takes it and gives it back; a handler runs by itself, and what goroutines do
-- together is a sequence of handlers in some order (Node/Server/Invites). The order in which Go
-- ranges over a map is that of the association list.
--
-- What the repository only calls is a parameter: the AEAD (`Gcm`, with the laws `IsAead`), the AES
-- constructor, encoding/json at each type (`Json`, `Transport`), the machine on which the routing commands run
-- (`Host`, with the laws `IsHost`), net.SplitHostPort, the random bytes, the outcome of each network
-- operation, the calendar (`Calendar`), the float64 operations (`Arithmetic`, `Floats`), the machine
-- of a deployment (`Machine`, with the laws `IsDisk`), and the time. The tables of the store are the
-- effect of the SQL statements, each of which is taken to succeed; a table's rows keep one order, and
-- ORDER BY sorts them without changing the order of equal rows.
--
-- Three loops run on fuel. The loop of assignIP has 253 rounds, one for each address of the pool, the
-- search of recalculateDistances one for each node and one more, and the loop of formatBytes 6, since
-- each round divides a number of 64 bits by 1024. attemptReconnect and startClient
-- count their attempts as the source does.
--
-- Not modelled: TLS and TCP options, the creation of the TUN device, the opening of the database and
-- its statistics, the export of the topology, the geolocation service, the rest of the command
-- line and the web interface. They are input and output around the daemon, or reports on it.
pub mod Base
pub mod Wire
pub mod Tunnel
pub mod Protocol
pub mod Store
pub mod Node
pub mod Cli
pub mod Examples
