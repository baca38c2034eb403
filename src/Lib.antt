-- ===== src/Lib.antt =====
-- edge-delta-lab: a hub publishes signed releases as content-defined chunks, and agents at the edge
-- fetch, verify and assemble them. This library models the logic of the Go code and proves what makes
-- it correct.
--
-- The parts, and how they interact:
--   Lab         internal/lab: the release format (format.go: Verify, Encode, Decode, Unique), the
--               chunker (chunker.go: Split), crash-safe writes (storage.go: AtomicWrite), the publisher
--               (publish.go: Publish), and the agent (agent.go: Sync, retry), which uses all of these; and the
--               origin server with its injected faults (server.go: ServeHTTP), whose ObjectLoader the hub is,
--               Lab.Loaded, the proof of a loaded image (agent.go: verifyLoadedConfigIdentity); and
--               Lab.Receipts, the receipts of the agent, which FlushReceipts brings to the handler of the
--               origin (telemetry.go), both on disks of Lab.Storage.
--   Hub         internal/hub/hub.go: the cache in front of the published objects: LRU, load (one read
--               in flight for an object), InvalidatePrefix, and the device metrics.
--   Registry    internal/registry: the watcher (watcher.go, config.go) that scans a registry and
--               acknowledges what is published, and Trigger of publish.go with its release names,
--               sequence numbers and channel promotion. Its writes are those of Lab.Storage. Registry.Client
--               is the client (client.go, auth_transport.go) that the watcher and the export use.
--   Push        internal/push: the broker (push.go) and the trigger (trigger.go), which scans release
--               files and announces them; the spoke's gate calls Lab.Verify. Push.Client is the loop of the
--               subscribed client, over the outcomes of its dials and the messages of each connection.
--   Notify      internal/notify/notify.go: events and their text, the retries of a sender, and the dispatcher
--               with a bounded queue for each notifier.
--   ClientConf  internal/clientconf: the client's configuration (clientconf.go) and the actions that it
--               allows after a sync (runner.go: Act, RestartMatching).
--   Admin       internal/admin/admin.go: the event log (EventLog: open, rotate, Emit, Query) over two files
--               that may end in part of a line, and the rows of CSV. Admin.Server is internal/admin/server.go:
--               the requests of a connection and their handlers, which call Query and read the receipts.
--   Receiver    internal/receiverloop/run.go: the checks and the loop of a receiver, with its timer and
--               the kick that an accepted announcement gives it.
--   Prelude     shared helpers: lists, signed integers with the int64 wrap-around, Go's results and maps.
--   Tests       concrete runs of the theorems, on small instances of the parameters.
--
-- State and operations. Structs are records and operations are functions from state to state. The disk
-- (Lab.Storage.Disk) has its files and a list with the fate of each coming call, so every call may
-- fail or be the last before the machine stops; code on the disk is a program of the monad Io, and a
-- theorem about all disks is one about all failures. The files of a disk are what the medium holds:
-- bytes get there at the fsync, and a rename counts as being there at once. A request to the hub is a
-- thread whose steps are the critical sections of load; bodies are slices of a store of buffers, so
-- sharing is visible. The event log has a world of its own (Admin.EventLog.State), since its writes
-- append and may leave part of a line. The receipts cross a Line: the two disks, and the fate of each
-- request and response.
--
-- Parameters, for code that is not in the repository: SHA-256, JSON, base64, Ed25519 and gzip (Platform),
-- the network and Docker (World), regexp and sort (Engine), decimal text (Decimal), image digests
-- (Hashes), the client's connection and the clock (Env), a registry that may answer anything (Net), the
-- docker command (Docker, Host), JSON on events and receipts (Json, Codec), TLS and URL tests (Setup).
-- Their laws are the records GzipLaw, StateLaw, DigestsLaw, HasOwnTemp, IsWriter, IsSound and JsonLaw.
--
-- Bounds. run in Hub.Load takes fuel, one for each step of a request that runs alone: 6 are enough
-- (the theorem on a miss uses 6). remove_all takes the number of entries and one as fuel; each round
-- drops an entry. send_from of Lab.Server.Transfer takes one more than the bytes to send; each round sends a byte.
-- send_hops (Registry.Client.Requests) and tags_from (Registry.Client.Calls) count down the code's own
-- limits, 10 requests in a chain of redirects and 10001 pages. All other loops are structural.
-- uint64 sequences are native numbers with % 2 ^ 64 where the code adds; int64 sums of sizes wrap as in Go.
--
-- Not modelled: the websocket transport, TLS, the loss of a rename before its directory is synced,
-- the admin listener, the exporter, the GET handler of the receipts and the command line. The
-- numbers of events stay below 2^63, so seq is a natural number. Pacing and cancelled contexts are
-- left out of the origin server, whose handlers run one at a time here. The agent fetches with one
-- worker, its context is not cancelled, and the attempts for a chunk are a list that the caller
-- gives.

pub mod Prelude
pub mod Lab
pub mod Hub
pub mod Admin
pub mod Registry
pub mod Push
pub mod Notify
pub mod ClientConf
pub mod Receiver
pub mod Tests
