-- ===== src/Lib.antt =====
-- The server of astralrelay.online: rooms, the message queue, federation, accounts, keys, the mesh,
-- the VPN and the stream hub.
--
-- The relay (server/internal/relay) keeps encrypted messages in a queue until their recipients sync.
-- It asks the rooms service (server/internal/rooms) who is a member of a room. The federation
-- package (server/internal/federation) signs requests to other servers and judges theirs. The
-- transaction handler (server/internal/api) puts these together: it verifies a request, checks its
-- limits and the trust in its origin, and gives the events to the relay.
--
-- Common is what the others share: bytes of texts (Text, Trim, Cuts), lists (Lists, Segments), Go's
-- int64 as 64 bits (Int64), strconv.Itoa and ParseInt (Decimal), results and failing calls (Tests).
--
-- Rooms is server/internal/rooms/rooms.go. Rooms/Tables has the tables rooms, room_members and users
-- and the statements on them, Rooms/Addr is RoomAddr, IsRoomAddr and ParseRoomAddr, and Rooms.antt
-- has the operations Create, Get, IsMember, Invite, Leave, SetRole, TransferCreator, Remove,
-- ResolveUserID and GetRoomAddrsForUser under their names. Rooms/History runs sequences of calls;
-- Lookup, Authority, Leaders and Leaderless are proofs.
--
-- Relay is server/internal/relay/relay.go. Relay/Queue has the tables and statements, Relay.antt has
-- Send and AcceptTransaction, Relay/Reading has MarkRead and Relay/Sync has Sync. The interface
-- RoomChecker is a record, which room_checker of Relay/Sending fills with the rooms service.
-- Ordering, Cursor, Paging, Following, FirstLoad, Delivery, Sending and Receipts are proofs.
--
-- Federation is server/internal/federation. Federation/Domains and Security are the lists and the
-- service of security.go, Limits is its ValidateTransaction, Signing is VerifyRequest of server.go
-- and signRequest of client.go. Client has the discovery of client.go with its cache and the signed
-- call that all requests share, Requests has the requests, and Escape is url.PathEscape and
-- QueryEscape. Trust, Persistence, Validity, Authentic, Payload and Discovery are proofs.
--
-- Mesh is mesh/coordinator/main.go. Mesh/Nodes has the state and the texts, State has load, save and
-- what gives out tokens and addresses, Handlers and Config have the handlers; a handler is its
-- checks and a commit, and a history is a sequence of commits. Numbers, Answers and Access are
-- proofs, and Coding is a codec for the tests.
--
-- Gateway is the transaction handler of server/internal/api/handlers_federation.go: its checks in
-- order (admit), the relay of a transaction for another server (forward_on) and deliver. Checks is
-- proofs.
--
-- Hub is server/internal/stream/hub.go: Hub/Clients has the sets of clients, Hub.antt the
-- operations, the cases of Run and the Redis subscriber, and Hub/Steps the relation of their
-- histories. Sets, Bounds, Told and Leaving are proofs. JSON texts are constructors of Frame, and a
-- client's channel is the list of frames that its writer in
-- server/internal/api/handlers_websocket.go has not taken.
--
-- Keydir is the one-time prekeys of server/internal/keydir/keydir.go: what GetBundle takes, the
-- upload of UpdateKeys with its quota, and CleanupOldConsumedPrekeys. Prekeys and Once are proofs.
--
-- Auth is server/internal/auth/auth.go. Auth/Tables has the tables and statements, Tokens has
-- issueToken, IssueWSToken, ValidateToken, ValidateWSToken and RevokeToken, Accounts has Register
-- and the key backups, Login has Login, Devices has ListDevices, RenameDevice with
-- sanitizeDeviceName, RevokeDevice and CleanupExpiredTokens, Proxy has the proxy sessions, and
-- Setting is a service for the tests. Calls runs sequences of the calls; Frame says which properties
-- of users and tokens every call keeps. Revoked, Standing, Kinds, Names, Backups, Sessions and
-- DeviceNames are proofs. A user identifier goes through a float64 in a token's claims.
--
-- Dbenc is server/internal/dbenc: Dbenc.antt is dbenc.go, Migrate is EncryptExisting of migrate.go
-- over the tables of Auth. Rows, Readable, Sealing, Existing and Twice are proofs. Existing has the
-- abstract view of the tables, that is what is read through Decrypt.
--
-- Vpn is server/internal/vpn. Vpn/Tables has the tables, Endpoints is parseHostPort, derivePingURL
-- and BuildWireGuardConf, Nodes is nodes.go, Configs and Xray are GetConfig of service.go with all
-- its protocols and Revoke, and Retry is xrayRetry of xrayapi.go. Addresses, Rows, Wireguard, Pool
-- and Limits are proofs.
--
-- Entry is middleware.go and handlers_auth.go of server/internal/api, over Auth and the client of
-- Federation: Middleware says who a request is from and what is sent on to a home server, Requests
-- has the bodies, Logins is login, here or by the home server, and Accounts the other handlers.
-- Proxied and LoggedOut are proofs that go through the handlers and the middleware.
--
-- How code becomes definitions. Operations run one after another, each a function from the state
-- before to the state after and the answer. A call of the database or of a file that fails is a
-- number of `Faults`, and every theorem without a hypothesis on it holds whatever fails. Texts are
-- lists of bytes, in which upper case and white space are those of ASCII. User and room identifiers,
-- UUIDs and times are numbers; int64 timestamps from a request are 64 bits, with subtraction that
-- wraps. Column msg_type, a constant, is left out. All loops are structural recursion, so no fuel is
-- used. The packages for hashes, signatures, JWT, bcrypt, the AEAD, UUIDs, URLs, HTTP, JSON and
-- base64 are parameters; where a theorem needs something of them, it is a named hypothesis.
--
-- Not modelled: HTTP routing and rendering, the other handlers of server/internal/api, the set-up of
-- TLS, metrics, media and push, the configuration, the calls of the Xray API and the texts of Xray
-- links, queries of the VPN service that only list, and the wiring in server/cmd.
pub mod Common
pub mod Rooms
pub mod Federation
pub mod Relay
pub mod Mesh
pub mod Gateway
pub mod Hub
pub mod Keydir
pub mod Auth
pub mod Dbenc
pub mod Vpn
pub mod Entry
