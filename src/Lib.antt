-- ===== src/Lib.antt =====
-- AdvisKV: the Raft storage node and the meta server of a sharded key-value store.
--
-- A storage node runs one replica for each shard that it takes part in. The replica's loop
-- (src/storage/replica/replica_loop.cpp) takes one task at a time and calls the Raft core
-- (src/storage/raft/core/), which changes its state in memory and fills a RaftEffects with what has to
-- be stored and sent. RaftEffectExecutor (src/storage/replica/raft_step.cpp) then stores the effects
-- and, once they are stored, hands over the messages. What the core has committed is applied to the
-- state machine (src/storage/raft/state_machine/kv_state_machine.cpp) over the map engine, and the
-- trackers of writes and reads then answer the clients that wait.
--
-- The meta server keeps the tables, nodes, replicas and replica groups in one store, where a write is a
-- transaction on a snapshot that is published as a whole (src/meta/store/). Its reconcilers
-- (src/meta/reconcile/) run in turn: one plans a group for each shard of a table, one follows the
-- phases of the replicas by the heartbeats, one adds and removes members of the groups, for which the
-- node selector (src/meta/placement/) chooses nodes, one takes tables from phase to phase, one follows
-- the status of the nodes, and one publishes the routes by which clients find the leaders.
--
-- The files and what they model, with the names of the source for functions and fields:
-- - Model: src/common/model/model.h, src/common/status.h, src/storage/model/param.h, the identifiers,
--   members, entries and proposals. Raft.Message: the messages and effects of src/storage/model/model.h.
-- - Tick: src/common/tick_trigger.h, the counters behind election timeouts and heartbeats.
-- - Raft.Log, Raft.Election, Raft.Membership, Raft.Apply, Raft.Replication: src/storage/raft/raft_log.cpp,
--   raft_election.cpp, raft_membership.cpp, raft_apply.cpp and raft_replication.cpp, one record for the
--   fields of each class and one function for each method. References that one class keeps to another
--   are arguments.
-- - Raft.Core with Append, Vote, Read and Snapshot: the handlers of src/storage/raft/core/raft_core*.cpp.
--   A handler takes the core and the effects and returns both. Its children Frame, Grow, Propose, Sound,
--   Ballot, Replies, Follower and Leader hold the lemmas on each handler, and Event puts all handlers
--   together as one step.
-- - Kv: src/storage/raft/state_machine/kv_state_machine.cpp and src/storage/engine/map_engine.cpp.
-- - Shards: src/common/shard_range.h, how the hash buckets are divided among the shards of a table.
-- - Wal: reading and recovering the log file in src/storage/persist/wal_store.cpp.
-- - Replica.Step is the executor, Replica.Run the replica with its stores, which runs, crashes and
--   recovers, Replica.Inline the loop that applies what is committed; Replica.Votes and Replica.Safety
--   are about runs of one and of all replicas.
-- - Replica.Completions: src/common/completion.h, what a caller waits for. Replica.Proposals and
--   Replica.Reads: src/storage/replica/proposal_tracker.cpp and read_tracker.cpp. The completions are in
--   a store under numbers, which the trackers keep; a function returns the store with what it answered.
-- - Meta.Model: src/meta/model/model.h. Meta.Index, Meta.Txn and Meta.Store: src/meta/store/meta_index.cpp,
--   meta_store_txn.cpp and meta_store.cpp. Meta.Plan, Meta.Phases, Meta.Victims, Meta.Members, Meta.Groups,
--   Meta.Tables, Meta.Nodes and Meta.Routes: the reconcilers of src/meta/reconcile/. Meta.Placement:
--   src/meta/placement/node_selector.cpp.
-- - Base: shared names and lemmas. Tests: concrete runs.
--
-- Conventions. A log index and a term, int64 in the source, are natural numbers, and differences that
-- may be negative there are options or tested first. A status is its code. An unordered map is an
-- association list, a set a list without duplicates. The random election timeouts are a function that
-- is asked for its n-th value. Loops over a range of indices are recursion on the number of indices
-- left. Only the loop that applies committed entries runs on fuel, one unit for each batch; a batch that is
-- not empty moves the applied index, so that the entries committed and not applied bound the fuel.
--
-- In the meta server a count of replicas and a time are natural numbers, the order of two texts, by
-- which listings are sorted, is a parameter, and the operations of a transaction, which all answer OK,
-- are total functions.
--
-- Not modelled: log lines, metrics and asserts; threads, locks, queues and gRPC; the tracker and the
-- writer of snapshots; the formats of files; the meta server's services; the client. The stores of a
-- replica are an interface, and runs use the one that does what it is asked to; the meta server's
-- persist engine is a parameter that may fail. The hash of a request's payload is a parameter, since no
-- statement depends on its values. The node reconciler reads the clock once for a pass.
pub mod Base
pub mod Model
pub mod Tick
pub mod Raft
pub mod Replica
pub mod Wal
pub mod Kv
pub mod Shards
pub mod Meta
pub mod Tests
