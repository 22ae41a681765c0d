-- ===== src/Lib.antt =====
-- Verification library of angry-box, a panel that deploys and watches chains of proxy nodes over SSH.
--
-- The panel keeps one JSON file, the store: hosts, chains of hosts, users, node records, metrics, route
-- rules, links and inbound profiles. The web handlers, the bot and the background loops read and edit
-- it through the methods of `Store`; the metrics loop probes each node and passes the outcome through
-- a health state machine.
--
--   Prelude    the names that all files share: Boolean tests, lists, tables with keys, integers,
--              texts, decimal notation, the search for a free number.
--   Model      internal/domain/model: the records (Base, Panel, Chain) and the methods of `Chain` (Levels).
--   Store      internal/chain/store.go and store_utilities.go: one file for each table, the commands of all
--              writing handlers as one machine (Machine), its abstract view (Machine/Directory), and what they
--              keep true (Consistent).
--              Store/Migrations: the upgrade of old stores at the start (internal/chain/migrate_v2.go and
--              `migrateOnce`), its profiles (Profiles), its levels (Levels) and the run of all steps (Once).
--   Entry      internal/chain/merged_config.go: the entry nodes of a chain and their ports.
--   Roles      internal/chain/merged_config.go: `resolveChainRoles`, against the methods of `Chain`.
--   Address    internal/chain/cryptogen.go: the allocation of tunnel addresses and networks.
--   Awg        internal/domain/model/awg_version.go: the versions of AmneziaWG. Awg/Presets: which preset a version
--              takes (internal/chain/presets.go); Awg/Material: the packets and keys that an inbound keeps
--              (internal/chain/awg_inbound_material.go); Awg/Conf: `RenderServerAWGConf`
--              (internal/chain/awg_server.go); Awg/Split and Awg/Sync: reading that text again, and the live
--              change of the peers of an interface (internal/chain/awg_peersync.go).
--   Deploy     internal/chain/profile_deploy.go: `ApplyProfileToNodes`, which puts the inbounds of a profile on
--              nodes and takes them off; one inbound is in Deploy/Inbounds.
--   Clone      internal/chain/clone.go: what `CloneNode` writes, and the new keys and networks of the copy.
--   Caddy      internal/chain/utilities.go: the ports of a node behind the caddy router; its routes and
--              host names, and the utilities a protocol needs (utilitydeps.go), are in Caddy/Plan.
--   Health     internal/chain/nodehealth.go: `NextState` and `SetNodeState`.
--   Relocate   internal/chain/autorelocate.go: whether a node that is down moves onto a spare, and onto which;
--              internal/chain/relocate.go: what `RelocateNode` writes (Relocate/Move).
--   Traffic    internal/chain/awgtraffic.go: the counters of peers folded into the totals of users.
--   Limiter    internal/web/authlimiter.go, and the gate of internal/web/auth.go that uses it (Limiter/Gate).
--   Topology   internal/chain/strategygroup.go: `ValidateChainTopology`.
--   Quote      internal/ssh/quote.go: `QuotePOSIX`, and a reader of the quotes of a POSIX shell.
--   Samples, Tests   small values, and the theorems on them.
--
-- Names are those of the Go code in snake_case (`SaveHost` is `save_host`, `NextState` is `next_state`),
-- fields likewise; a field that is embedded in Go (`Host` in `NodeInfo`) is a field of its own here.
--
-- How the code is read:
--   - A time is its number of nanoseconds since the zero time, so that 0 is `time.Time{}`. The clock and
--     `newID()` are arguments of the functions that call them.
--   - An `int` whose sign the code looks at is an integer, the others are natural numbers, and so are
--     ports and the levels of packets, which the code only compares with zero and which are not negative; a
--     float64 is its bit pattern, which is stored and never computed with.
--   - A Go map is a list of pairs; a slice is a list; elements of the tables are never nil.
--   - A handler of the store takes the disk and gives its result and the disk after it. `Disk` holds what
--     `readStore` would make of the file, and for each file whether a write of it would succeed: every write
--     that succeeds raises the revision, so that the later writes of an operation succeed or fail on their own.
--     A write of the same file that is tried again fares as it did, but for the second start of `migrateOnce`,
--     where the disk may have changed. The revision, an `int64`, is a natural number without that bound.
--     The JSON text, the encryption at rest and the temporary file are below this.
--   - The mutex makes each handler one step, and calls that the code makes without holding it (in
--     `SetUtilityState`, `SaveNodePosition`, `ResolveNodes`, `AutoRelocateDecision`, `ConsumeSpare`) are taken as
--     one step. `ApplyProfileToNodes`, `RelocateNode` and `CloneNode` are the sequences of their calls of the
--     store, between which nothing else writes it.
--   - `time.Duration` is an `int64`: the product with `time.Hour` keeps its 64 bits, and `Sub` stops at the
--     ends of the range.
--   - The bytes of a peer are counted without the bound of 64 bits; their rates, which are quotients of
--     floats, are a parameter. A fold has one time, although the code asks the clock more than once.
--   - The comparison of a password with its bcrypt hash is a parameter. Requests come one after the other;
--     requests that are checked at the same time are not covered.
--   - Functions are structural on a list. Three loops of the code count up without a list: the search for a
--     port in `RemapInboundPorts` has no bound, and 6 rounds and two for each inbound are given, since
--     five ports are caddy's and every inbound has one port and is given one; that in
--     `uniqueMigrationProfileID` has no bound, and one round more than there are identifiers in use is given;
--     the allocators of addresses have the bounds of the code. `migrateOnce` has one round for each version.
--   - The functions of Go's `strings` are in Prelude/Text; a change of letter case is written for ASCII,
--     which the names of protocols are.
--   - What the generators of keys, identifiers and packets draw, the table of presets and the change of a key from
--     hexadecimal to base 64 are arguments: the packets and the header keys are a function of what is asked for,
--     the same for all inbounds of one call; the keys of a new inbound are given for each node, those of a clone
--     for each inbound by its place and for each chain.
--   - The commands that `tryPeerSync` runs on a node are a record of functions on the state of the node (`Node`);
--     that they do what the tools document is the hypothesis `IsInterface`. The order in which Go visits a map is
--     one of the functions. A key shorter than eight bytes makes the message of a failure panic.
--   - A search that the code makes in a map of the values in use is made in the list of these values.
--
-- Not modelled: the deployment over SSH, the configurations for other programs except that of an AmneziaWG
-- server, the web pages and the bot, the key and packet generators, the capture of packets, the takeover
-- of other panels, the audit log's own file, the known hosts
-- (they go through `net.SplitHostPort`) and the key lookup. Of the migrations the copies of the file, the
-- log and the audit entries are left out; of a clone the application of its chains.
pub mod Prelude
pub mod Model
pub mod Health
pub mod Store
pub mod Relocate
pub mod Limiter
pub mod Quote
pub mod Topology
pub mod Traffic
pub mod Clone
pub mod Deploy
pub mod Entry
pub mod Roles
pub mod Address
pub mod Awg
pub mod Caddy
pub mod Samples
pub mod Tests
