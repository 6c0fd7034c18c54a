-- ===== src/Lib.antt =====
-- The message queue of backend/queue and its placement in backend/gateway, as a shallow embedding.
--
-- A queue (backend/queue/logic/engine) spreads its messages over 16 or 64 slots. A slot keeps the
-- messages of each group in a deque, lists a group with messages in the band of its head's priority,
-- leases a message out under an epoch while its group is locked, and has three timers: leases, expiry
-- and delayed delivery. A producer reaches a slot by the hash of its group (backend/slotting), a
-- consumer by the hints of the slots. What lands and leaves is written to a log per slot
-- (backend/queue/repo/walfile), which a replay reads back. Which node serves a queue or a slot is
-- rendezvous hashing (backend/gateway/entity/model-member.go).
--
-- Base: the native numbers, 64-bit signed integers as integers, lists, maps on texts.
-- Slotting: slotting.go. SlotFor is slot_for, with FNV-1a over UTF-8.
-- Engine.Deque: deque.go, and in Engine.Deque.Laws its view as a list.
-- Engine.Message, Engine.Heaps, Engine.State: message.go, priority.go, heaps.go, group.go, stats.go and
-- the fields of slot.go. A pointer to a group is an address in the slot's store, since the group map,
-- the bands and the leases share it. A heap is a list in order of time.
-- Engine.Bands, Engine.Deliver: the operations of slot.go. Engine.Timers, Engine.Handoff: sweep.go.
-- Engine.Config, Engine.Queue, Engine.Upkeep, Engine.Migrate: queue.go. Engine.Dispatch: dispatch.go.
-- Engine.Accounts: the invariants of a slot and what each step does to what it holds.
-- Engine.Lifecycle: what enqueue, take, ack, nack and retire do.
-- Wal.Record: record.go. Wal.Replay: the appends, replaySlot and Compact of wal.go, on the bytes of a
-- file. Wal.Changes: what a sequence of records leaves, seen from the records after each, without the
-- replay's map. Wal.Framing, Wal.Recovery, Wal.Told, Wal.Compaction: what a replay finds. Wal.Codec
-- shows that what is asked of encoding/json can hold. Wal.Letters: deadletters.go, the log of the dead letters.
-- Placement: OwnerFor and CandidatesFor of model-member.go. Placement.Keys: OwnerKey there, and
-- OwnerKeyFor of backend/queue/logic/engine/cluster.go.
-- Engine.Migrate.Handover: slots that move from one queue to another. Wal.Directory: Replay of wal.go.
-- Requests.Recovery: recovery-logic.go of backend/queue/logic. Requests.Transfers: Absorb of
-- migration-logic.go there, with its log.
-- Wal.GroupCommit: syncThrough of wal.go, with the flushes that appends share and no compaction.
-- Wal.Names: the names of its directories and files, and queueName of backend/gateway/controller/validate.go.
-- Gateway.Cache: cache-logic.go of backend/gateway/logic. Gateway.Admin: queue-admin-logic.go,
-- queue-settings-logic.go and config-cache-logic.go there, over backend/gateway/repo/postgres.
-- Engine.Capacity: the cap in EnqueueToSlot, as the interleaved accesses of many producers and consumers;
-- the depth is signed there, as what was added less what was subtracted.
-- Requests: what a node does for a request to one queue (backend/queue/logic).
-- DeadLetters: backend/queue/logic/deadletter-logic.go and backend/gateway/logic/deadletter-logic.go.
-- Gateway.Waiters: dequeue-wait-logic.go of backend/gateway/logic. Gateway.Moves: rebalance-logic.go and
-- reconcile-logic.go there, and backend/queue/logic/migration-logic.go. Gateway.Owners:
-- placement-logic.go, and what a rebalance moves. Gateway.Routing: withOwner and
-- rankedOwners of routing-logic.go, and one take of dequeue-logic.go.
-- Gateway.Metrics and Gateway.Cluster: metrics-collector-logic.go there.
-- Wire: req-queue.go and receipt.go of backend/queue/entity, and slotFromReceipt of routing-logic.go.
--
-- A time is its distance in nanoseconds from the zero time. Unsigned 64-bit and 32-bit counters wrap,
-- and are written so. Signed gauges and the depth do not overflow here. The clock, a new identifier,
-- the answer of the log and the float of the starvation reserve are arguments; so is encoding/json,
-- which reads back what it wrote, and base64. A flush of a file that succeeds covers what was written
-- before it began. The writes to one log stay below 2^64. A call of another process that changes it may
-- be carried out and answered, or not be carried out, or be carried out with the answer lost. A call is
-- one step: the mutex of a slot is what makes it one in the code, but that EnqueueToSlot reads whether
-- the slot is frozen before it takes the mutex, so that a slot frozen in between is not seen. Loops over a Go
-- map run in the order of the identifiers here.
--
-- Fuel: popping the live head of a group and searching a band have one more than the entries there; the
-- fan-out has the number of slots; a replay has one more than the bytes of the file, since each record
-- takes at least its header. Four tries of takeUrgent and sixteen slots of takeStarved are the code's.
--
-- Not modelled: a compaction that runs while records are appended and flushed, the order in which a
-- move leaves the messages of a slot (Gateway.Moves lists them in none), the HTTP and RPC
-- controllers, other stores behind the gateway, system calls, the long poll and the streams of notifications, membership in etcd, the front end and the start of the processes.
pub mod Base
pub mod Slotting
pub mod Engine
pub mod Placement
pub mod Wal
pub mod Wire
pub mod Gateway
pub mod DeadLetters
pub mod Requests
