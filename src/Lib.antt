-- ===== src/Lib.antt =====
-- A verification library for synapse-gopro-worker, a Go worker that answers Matrix federation read
-- requests (/state, /state_ids, /event, /get_missing_events) from Synapse's database.
--
-- A request is rate limited per origin server (internal/ratelimit), routed and answered by a
-- resolver (internal/matrixstate) on top of a store (internal/store), whose reads go through caches
-- (internal/cache) that an invalidation stream (internal/replication) arms and disarms. Each part is
-- a module here:
--
-- Prelude: shared tests, lists, maps as association lists, and strings as lists of bytes.
-- Cache models `LRU` of internal/cache/lru.go. Lru is the struct: `entries` is the Go map, to the
-- number of an element, and `order` the linked list, most recent first. `Get`, `Add`, `Remove`,
-- `Purge`, `SetArmed` and `evictLocked` are get, add, remove, purge, set_armed and evict_locked.
-- What happens before the lock is taken is apart from what happens under it (get_locked,
-- add_locked). Spec is the abstract cache, Run the refinement, History what an answer may be.
-- RateLimit models internal/ratelimit/limiter.go and config.go. Host has the sections of `Acquire`
-- under the lock of a host, Threads interleaves the requests of a host as events, Limiter the map
-- of the hosts with `Cleanup`, Settings the defaults. Fairness and Cleanup say who gets a slot and
-- which hosts stay. Times are milliseconds in ℕ.
-- AuthChain models internal/store/authchain.go: Cover is `materialiseChains`, Query
-- `GetAuthChainIDs` around it, Walk `GetAuthChainIDsRecursive` and the fallback. Tables are lists
-- of rows, in the order in which the database gives them.
-- Store models the caches of internal/store/cache.go (Caches), the state at a state group and its
-- filtered views of state.go (StateGroups, Filtered), a read through a cache (ReadThrough, Reads),
-- and the reads about rooms and events of room.go and event.go (Rooms), which Presence, Standing and
-- Current describe without the queries. The settings of the caches are those with the defaults
-- filled in, with zero for a cache that is switched off. The SQL of a query is
-- written out as a function on the rows: a recursive query round by round.
-- MissingEvents models the walk of internal/store/missingevents.go.
-- Acl models internal/matrixstate/acl.go: Glob the translation of a glob to an expression and the
-- matching of expressions, Rules `ParseServerACL` and `Allowed`.
-- MatrixState models internal/matrixstate/stateids.go and errors.go: Access `checkAccess` and
-- `serverACL`, StateIds `stateIDsForEvent`, `computeStateIDs` and `StateIDs`. Visibility models
-- visibility.go with `visibilityAt` and `eventVisibleInRoom` of event.go (Openness has the rules of
-- history visibility on their own), Serving `Event`, and
-- MissingEvents the handler of missingevents.go, which drops and renders what the walk found.
-- Digest models the digest of the events of a /state response, in state.go.
-- Replication models internal/replication/replication.go with internal/cache/stores.go: Commands
-- and Lines read a line of the stream, Subscriber is the state machine of `Run`, `session`, `arm`
-- and `disarm`, stepped by signals, among which stands what the requests do to the caches.
--
-- Parameters stand for what the code calls outside this repository, or for what is not modelled of
-- the repository: what package json makes of a text (decode_row, decode_acl, replaces_state,
-- sender_of, history_visibility_of, membership_of), package mautrix's redaction (redact_event) and
-- the rules for the unsigned part of an event (apply_pdu_json_rules), the redactions that are not
-- authorised (withheld), the test of a depth (depth_in_canonical_range), SHA-256 (sha256),
-- `net.ParseIP` (parses_as_ipv4), the order of `ORDER BY` (order_by) and that of `sort.Strings`
-- (sort), and the size that a parsed ACL counts for (size_of_acl), which is read off compiled
-- expressions.
--
-- Loops whose end is not structural run on fuel, and a theorem shows that the fuel is enough: the
-- eviction loop has a round for each element, the walk over the links two rounds more than there
-- are links, and the walk over auth edges two more than there are edges, since each round but the
-- last uses up a link or an edge. The walk over state groups has a round for each number up to the
-- group, which is enough where a group has a higher number than those it builds on; the walk over
-- missing events has two more than the limit, since each round but the last finds an event.
--
-- A signal of the subscriber, and what a request does to a cache, are single steps; that `Add` tests
-- the switch of a cache before it takes the lock is a theorem about the cache alone. A resolver
-- reads the database as it is at one time, and a read through a cache is shown to give the same.
--
-- Not modelled: SQL, HTTP, JSON and Prometheus are libraries, and enter as parameters or not at all;
-- errors of the database connection abort a request and are left out; Go's integers are ℕ where the
-- code keeps them from going below zero. The streamed /state, the fields that redaction keeps, the
-- signatures of requests, the shadow comparison and the log of differences are not modelled.
pub mod Prelude
pub mod Acl
pub mod AuthChain
pub mod Cache
pub mod MatrixState
pub mod MissingEvents
pub mod RateLimit
pub mod Store
pub mod Replication
