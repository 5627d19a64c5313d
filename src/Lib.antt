-- ===== src/Lib.antt =====
-- AlliDB: a distributed database over a ring of nodes. This library models the parts on which its
-- data depends, and proves what makes them correct.
--
-- How the program is put together. A coordinator (core/cluster/coordinator.go) takes the owners of
-- a key from the ring (core/cluster/ring) and asks those of them that gossip (core/cluster/gossip)
-- holds alive; a write for a node that is away becomes a hint (core/cluster/handoff), and replicas
-- that have come to differ are found by Merkle trees and repaired (core/cluster/repair). On each node
-- a write goes to the log (core/storage/wal) and to the table in memory (core/storage/memtable),
-- which is flushed to tables on disk (core/storage/sstable) that compactions join
-- (core/storage/compaction); the tenant guard (core/storage/guard.go) keeps the tenants apart, and
-- the storage service (cmd/allidbd/storage_service.go) joins all of these. The command
-- (cmd/allidbd/main.go) checks the configuration (core/config) and makes the ring and the coordinator
-- of it. What is stored is an entity with its embeddings, chunks and edges in a binary encoding
-- (core/entity), and the edges are cached as adjacency lists (core/index/graph).
--
-- Which file models what; the functions keep their names, in snake_case:
--   Base         Go strings as lists of bytes, maps, errors, int, and sort.Search
--   Config       core/config/config.go, validate.go: the configuration, its defaults and its checks
--   Ring         core/cluster/ring/ring.go: New, AddNode, RemoveNode, GetOwners, Rebalance, the queries
--   Wire         encoding/binary's numbers, a buffer of fixed size, checked reads, strings
--   Entity       core/entity/chunk.go, edge.go, entity.go: the entities, their updates and reads, and
--                ToBytes and FromBytes of all three
--   Wal          core/storage/wal/wal.go, replay.go: New, Append, Close, ReadEntry, Replay
--   Memtable     core/storage/memtable/memtable.go: all methods of the table
--   Sstable      core/storage/sstable/format.go, writer.go, reader.go: the formats, the writer, the
--                reader and the merge reader
--   Tenant       core/storage/guard.go, core/security/tenant/context.go: the guard
--   Service      cmd/allidbd/storage_service.go: writes, reads, scans and flushes of entities,
--                and the reads and writes of replicas
--   Gossip       core/cluster/gossip/gossip.go: the handlers of the messages, an exchange of two
--                nodes, the failure check, the node list and the queries
--   Coordinator  core/cluster/coordinator.go: Read, ReadWithResponses, Write, and what they call
--   Handoff      core/cluster/handoff/store.go, dispatcher.go: the store of hints, its clean-up, flush
--                and load, and the replay of hints to nodes that are back
--   Compaction   core/storage/compaction/planner.go: the tiers and what is planned
--   Repair       core/cluster/repair/entropy/merkle.go, scheduler.go, executor.go: the trees and their
--                comparison, the queue, the rate limiter and the execution of repairs
--   Command      cmd/allidbd/main.go: the ring and the coordinator of a configuration
--   Graph        core/index/graph/cache.go: the adjacency lists, their eviction and the
--                traversals
--
-- How state and operations correspond. A struct is a record, a map an association list with one
-- entry for each key (Base.Maps), and an operation a function from the state before it to the state
-- after it and to what it returns. Where a Go map is read in an unspecified order, the order is an
-- argument, or the list that is read is arbitrary. Methods that hold a lock from the first line to
-- the last run one after the other, which is what the sequences of operations in the theorems are.
-- SHA-1, SHA-256, CRC-32, sort.Slice, JSON, the clock and the replica client are parameters; what a
-- theorem needs of them stands among its hypotheses, and the tests give each a concrete function.
--
-- Bounds and fuel. Numbers are natural numbers; the 32-bit lengths of the encodings are cut where
-- the code cuts them, and the round trips say which lengths fit. A float and a time are their 64-bit
-- patterns, and so is an int64 in a table on disk, whose sums wrap around. Sizes, heartbeats and
-- counters are taken not to overflow their 64 bits. The loop of GetOwners runs over the number of
-- virtual nodes; replayFile runs on fuel, and Replay gives more than the file has bytes, which is
-- enough because an entry takes at least eight. The loops of a table's reader get one round more than
-- there are bytes, the levels of a Merkle tree one for each leaf, the batches of a replay one for each
-- hint, and a traversal of the graph one for each edge and one more.
--
-- Not modelled: the files' own errors and fsync, goroutines, tickers and transports, which only
-- carry the calls; the merge of a compaction, the detection of divergent replicas, the vector and
-- unified indexes, the query planner, the servers and the loading of the configuration.
pub mod Base
pub mod Config
pub mod Ring
pub mod Wire
pub mod Entity
pub mod Wal
pub mod Memtable
pub mod Sstable
pub mod Service
pub mod Tenant
pub mod Gossip
pub mod Coordinator
pub mod Handoff
pub mod Compaction
pub mod Repair
pub mod Graph
pub mod Command
