-- ===== src/Lib.antt =====
-- Verification of qoqtun, a reverse tunnel: a server opens public ports and HTTP hosts for clients
-- behind NAT, and each connection to them is paired with a data connection that the client dials.
--
-- The parts and how they meet. A client is enrolled with a token: internal/enroll consumes it from
-- the store of internal/auth, signs the client's certificate and records the client (internal/pki),
-- behind a limiter (ratelimit.go). The client then keeps a control connection (internal/clientcore
-- on its side, internal/control on the server's) that carries framed and validated messages
-- (internal/protocol). A registration reaches the tunnel manager of the client
-- (internal/tunnel/server.go), or the shared table of hosts (vhost.go), which a sniffed request is
-- routed by (http_sniff.go). UDP packets go through a table of sessions (udp_server.go) and are
-- framed on the data channel (udp_frame.go). Quotas, gates and buckets (internal/security) bound
-- connections and bytes, internal/metrics counts them, and internal/config checks the limits that
-- the policy is made of.
--
-- Which file models what:
--   Prelude: shared names, Go's maps as association lists (Maps), signed integers (Int), the string
--     functions that the program calls (Strings, Decimal).
--   Net: the interface of package net that the parsers take.
--   Protocol/Messages, Validate, Ranges, Frame: messages.go, validate.go and protocol.go of
--     internal/protocol; Ranges has parsePortRange and validTarget, Frame has Encode, Decode and
--     ReadFrame.
--   Auth/TokenStore: internal/auth/store.go: Create, Consume, Revoke and the reload, with the file
--     in the state.
--   Client/Errors, Client/Reconnect: errors.go and manager.go of internal/clientcore: Classify,
--     backoffFor and Run.
--   Security/Quota, IpGate, Bandwidth: quota.go, ipgate.go and limiter.go of internal/security.
--   Enroll/RateLimit: internal/enroll/ratelimit.go: Allow and Report.
--   Enroll/Server: internal/enroll/server.go: handleConn, handleEnroll, handleRenew, by their
--     stages between two accesses of shared state; the handlers of different connections
--     interleave.
--   Pki/Sign, Registry, Revocation: SignClientCertificate of internal/pki/sign.go, registry.go and
--     revoked.go.
--   Session: internal/session/session.go: the registry of clients.
--   Config/Server, Rules, Validate, Client: internal/config/server.go, client.go, and of
--     validate.go the tests of values (Rules), ValidateServer and ValidateClient.
--   Client/Requests: the request of a tunnel that internal/clientcore/client.go sends.
--   Logging/Sample, Redact: internal/logging/sample.go: Handle and prune; redact.go.
--   Metrics: internal/metrics: the counters of metrics.go and the window of rate.go.
--   Control/HalfOpen, Ports, VhostListener, DataQuota: the trackers of internal/control/server.go,
--     the listener of vhost.go and the quota of security.go.
--   Config/Overlays, Resolve: fileOverlays and envOverlaysFor; setField, applyOne, ApplyOverlays,
--     buildFromMap and ResolveServer of internal/config/resolve.go, on structs as reflection sees
--     them.
--   Control/Server: the struct Server of internal/control/server.go, with policyFromConfig,
--     managerFor and the maps of security.go.
--   Control/Connection: handleConn, handleControlConn with its deferred calls, readLoop,
--     superviseHeartbeat, and the shutdown of a client (shutdown.go).
--   Control/Tunnels: handleRegisterTunnel, handleRegisterVhost, handleUnregisterTunnel.
--   Control/PublicConns, DataConns: the onOpen of a registration, handleVhostConn (vhost.go),
--     handleDataConn, SetUDPChannel and the end of a channel.
--   Control/Run: the control plane as a sequence of events, and what holds over it.
--   Tunnel/Manager: internal/tunnel/server.go: Register, AddVhostTunnel, Unregister,
--     OpenConnection, ClaimData, CleanupExpired.
--   Tunnel/Vhost, Host, Sniff: vhost.go and http_sniff.go of internal/tunnel: Lookup,
--     normalizeHost, SniffHost.
--   Tunnel/Acl, UdpFrame, UdpSessions: acl.go, udp_frame.go and udp_server.go of internal/tunnel.
--   Examples: concrete runs.
--
-- State. The control plane holds the other parts: its record has the managers, the routing table,
-- the quotas, the gate, the sessions, the counters and the frames that were sent; a handler takes
-- it and returns the next one, and an event of Control/Run is one handler taken as a whole. A
-- component's struct is a record, its methods are functions that return the new record, and a mutex
-- makes a method one step; interleavings are sequences of steps. Go's maps are lists of keys and
-- values, in any order; random numbers, the clock, the outcome of a bind or a write and what a
-- session returns are arguments. Ports and limits are integers with their sign. int64 arithmetic is
-- written out where it can wrap: the ban of an address and the doubling of the reconnection delay.
-- Other counters and times are natural numbers, which stand for machine integers that do not
-- overflow in practice.
--
-- Fuel. The header loop of the sniffing takes the length of the stream and one; each round takes at
-- least a newline off the stream. Decimal printing takes the number and one. Every other loop is
-- structural.
--
-- Parameters, since their code is not the repository's or is the standard library's: package net,
-- the limiter of golang.org/x/time/rate, SHA-256, crypto/x509 (its parsing and signing), the
-- parsing of addresses, prefixes and durations in a configuration, floating-point numbers, and
-- JSON, which is a pair of functions for the frames and the list of records itself for the file of
-- tokens. White space is that of Unicode in UTF-8 (in Sscanf that of ASCII), and case folding is
-- exact as far as its result is ASCII.
--
-- Not modelled: goroutines that copy bytes between sockets and accept connections, the client's
-- session, the TLS of the endpoints, the client's side of the enrollment, the parsing of
-- configuration files, logging but for its flood guard and its redaction, transport, platform code
-- and commands. They are I/O, wrappers of crypto/tls and crypto/x509, or are still to be added.
pub mod Prelude
pub mod Net
pub mod Protocol
pub mod Auth
pub mod Client
pub mod Security
pub mod Config
pub mod Pki
pub mod Metrics
pub mod Logging
pub mod Control
pub mod Enroll
pub mod Session
pub mod Tunnel
pub mod Examples
