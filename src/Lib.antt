-- ===== src/Lib.antt =====
-- oneClickAgent: the Go gateway (gateway/) keeps devices connected through a websocket tunnel, hands
-- jobs of users to the agents that run on those devices, and stores both in a database.
--
-- Parts and files:
--   * Prelude: Boolean tests, lists and dictionaries over the native numbers.
--   * Model: the data types of gateway/internal/model/types.go. Texts are strings, identifiers and
--     instants (nanoseconds) are numbers, a Go pointer that may be nil is an Option.
--   * Tunnel.Acks: AckTracker in gateway/internal/tunnel/device_conn.go: `track`, `remove`,
--     `pending`, `retransmit_ready`, `retransmit_tick`.
--   * Tunnel.Conn: the state of DeviceConn in the same file: the bounded outbound queue and what the
--     hub does to it.
--   * Tunnel.Registry: the interface Registry of gateway/internal/tunnel/hub.go as a record with its
--     laws, and both implementations of gateway/internal/tunnel/registry.go.
--   * Tunnel.Hub: gateway/internal/tunnel/hub.go over any registry. Connections are pointers into a
--     store, so that a superseded connection is told apart from its successor. The mutex h.mu is not
--     reentrant: an operation that locks it while its goroutine holds it is `none`.
--   * World: the state of the stores and the pool, the environment's choice of failing database calls,
--     and the monad of a method call.
--   * Store: the SQL statements of jobs.go, agents.go, files.go and devices.go in
--     gateway/internal/store as operations on lists of rows, with the constraints of
--     gateway/migrations/; Pages is the lists with a cursor.
--   * Pool: gateway/internal/pool/allocator.go: `allocate`, `release`, `dequeue_next`, `expire_stale`,
--     `dispatch_job`, and in Pool.Fleet `ensure_pool_size`, `reconcile_pool`, `drain_agent`, `stats`.
--   * VncRelay: the sessions of gateway/internal/vncrelay/relay.go, with one function per method.
--   * RateLimit: the three rate limiters of gateway/internal/httpapi/middleware.go.
--   * PubSub: the broker of gateway/internal/pubsub/pubsub.go, whose subscribers are pointers too.
--   * Relay: the file relay of gateway/internal/relay/relay.go. Disk is the operating system's calls,
--     Names the check of file names, Staging, Push, Acks, Pull and Outputs the methods.
--   * Gateway: Handlers has the functions that gateway/cmd/gateway/main.go hands to the hub, one per
--     frame; Inbound and Hello are how gateway/internal/tunnel/device_conn.go takes a frame in;
--     Operations puts them, the requests and the pool together as one state machine.
--   * Http: the handlers of gateway/internal/httpapi/jobs_handler.go and files_handler.go, and those of
--     VNC sessions in vnc_handler.go, from a decoded request to the answer, and the cache of replies of
--     idempotency.go.
--   * Auth: gateway/internal/auth and the handlers of gateway/internal/httpapi/auth_handler.go:
--     Passwords, Jwt (keys and tokens), Roles, and Handlers. A token and its hash are numbers.
--   * Skills: gateway/internal/skillvault: Vault (the catalogue and its artifacts) and Dispatch.
--     Store.Skills, Store.Grants, Store.Users, Store.Tokens and Store.VncSessions are the tables.
--   * Samples and the modules named Examples: concrete states and runs.
--
-- How they interact: the pool calls the stores and the hub, each on its share of `World`. The hub calls
-- the registry, and `close` of a connection calls back into the hub's `unregister`. The handlers of
-- requests and those of frames meet in `World` only: a request for a VNC session, say, waits for what
-- a device's frame does to the relay.
--
-- Bounds and fuel: the outbound queue holds 256 frames, a frame is sent again three times at most.
-- The dequeue loop is on fuel, since the code's loop has no bound; a theorem about it holds for every
-- fuel. Instants do not wrap: a 64-bit count of nanoseconds lasts past the year 2200.
--
-- Not modelled: websocket and HTTP input and output, logging, the encoding of frames as JSON, the
-- interleaving of goroutines inside one method call; the other HTTP handlers, frames about
-- credentials, sockets and their timers, the hashing of passwords and the signing of tokens, the
-- vault of credentials, the other stores, and the programs in agent/, device/ and web/.
pub mod Prelude
pub mod Model
pub mod Tunnel
pub mod World
pub mod Store
pub mod Pool
pub mod Auth
pub mod Gateway
pub mod Http
pub mod PubSub
pub mod RateLimit
pub mod Relay
pub mod Skills
pub mod VncRelay
pub mod Samples
