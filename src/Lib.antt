-- ===== src/Lib.antt =====
-- The Raft consensus core of crane, a fault-tolerant job runner whose control plane is replicated
-- by its own implementation of Raft in internal/raft, and the table, the
-- queue and the suspicions of its gossip membership in internal/swim.
--
-- The program. internal/raft/log.go keeps the replicated log: the entries above a snapshot base,
-- and the commit and the applied index. internal/raft/core.go is the deterministic protocol core:
-- it owns a log, and is driven by Tick, Step, ProposeEntry and a few calls for snapshots. It does no
-- input or output: what is to be made durable, sent and applied is collected in one Ready batch,
-- which the owner of the core reads with Ready and returns with Advance. Before a message is
-- handled its sender is checked by internal/raft/messages.go and its content by
-- internal/raft/codec.go, which also lays messages out as bytes. Storage, transport and the
-- goroutine that drives the core are around it. internal/swim/table.go is what a node believes of the
-- others: gossip updates and the floors of ended generations are merged into it by incarnation and
-- status, and records whose retention is over are taken away. internal/swim/dissemination.go is the
-- bounded queue of the updates that a node still sends on, and internal/swim/suspicion.go decides what
-- follows from an update: a timer, an event, a refutation where the node itself is suspected.
--
-- The files.
--   Base            the names that the modules share; Boolean tests, lists, results, maps and
--                   big-endian bytes over the native numbers.
--   Raft/Types      internal/raft/types.go and errors.go: errors, entries, the hard state.
--   Raft/Log        internal/raft/log.go, with one definition per method; below it validity
--                   (Valid), Term and Entry (Lookup), the loop of Append (Repair, Splice, Append,
--                   Safety, Idempotence), NewLog and the advances (Recovery), Compact (Compaction)
--                   and RestoreSnapshot (Restore).
--   Raft/Voters     internal/raft/voters.go: the fixed voter set and its quorum.
--   Raft/Messages   internal/raft/messages.go: the messages and ValidateRPCSender.
--   Raft/Codec      internal/raft/codec.go: limits and validation. Below it the payload encoder and decoder (Wire), EncodeRPC (Encode) and DecodeRPC
--                   (Decode, Fixed) with a function per message, the layouts as plain lists (Layout) and what
--                   EncodeRPC returns in terms of them (Encoded), the readers on the layouts (Reads,
--                   Scan, Plain, RoundTrip), the ranges of the fields (Ranges), and Sizes.
--   Raft/Ready      internal/raft/ready.go, progress.go and records of snapshot.go and storage.go.
--   Raft/Core       internal/raft/core.go. State has the struct Core as a record; Queue what is put
--                   into the batch; Roles the changes of role and term; Election votes, leadership
--                   and the leader's clock; Proposals, Replication, Snapshots, Append and Install
--                   the methods of those names; Step the entry points. Frame, Ballot, Kept and
--                   Discipline hold what the methods keep; Runs, Leadership, Promotion, Votes,
--                   Batches and Completion the theorems on the entry points and on what they promise.
--   Raft/Examples   the theorems at concrete logs, cores and messages.
--   Swim/Types      internal/swim/member.go.
--   Swim/Table      internal/swim/table.go, with one definition per method; below it validity (Valid),
--                   the rows that each operation writes (Rows), what keeps a table valid (Kept, Expiry),
--                   what a table knows as one number per node (Ranks, Joins), sequences of calls (Runs),
--                   an update that supersedes what is shown (Shown) and addresses (Address).
--   Swim/Dissemination
--                   internal/swim/dissemination.go, with one definition per method; below it the
--                   retransmission budget (Budget), the size of the queue (Bounds), what Enqueue keeps
--                   (Coverage), what Peek selects (Selection) and Reserve (Reservations).
--   Swim/Duration   the durations and instants of internal/swim/suspicion.go.
--   Swim/Suspicion  internal/swim/suspicion.go, with one definition per function, over the part of the
--                   Engine of engine.go that has no probes; below it the refutation (Refutation), the
--                   timeout of a suspicion (Timeouts) and the durations (Durations).
--   Swim/Examples   the theorems at concrete tables, queues and engines.
--
-- The correspondence. A method that changes the core is a function from the core to the core and
-- its error, since a Go method that fails leaves behind what it wrote before; Outcome and the
-- operator after it chain them. The numbers are natural numbers that stand for uint64, and each
-- place where the source tests for or meets the end of the range says so. Byte strings are lists of
-- numbers, fixed-size identities are the number that their bytes spell, with 0 for the zero value.
-- Go maps are association lists, and sets of voters lists without repetition. The random draw of
-- an election timeout is an argument, so that the theorems hold for every draw. Errors are the
-- source's sentinel values without their text. A loop over a list is structural recursion. The
-- loops over indices, of queueCommittedEntries, issueAppend and advanceLeaderCommit, recur on the
-- number of indices that are left, which is computed from their bounds, so that no fuel is invented.
-- A decoder is the bytes that are left, a function to the value it reads and the bytes after it. The
-- membership table is two association lists; the sign of compareMemberVersion is the test outranks.
-- The encoder of gossip batches is a parameter of Peek and Take, any function to bytes or an error.
-- Durations are nanoseconds, and an instant is the nanoseconds since Go's zero time.
-- The number of bits of a word is found in 64 halvings, which are enough for any word of 64 bits.
--
-- What is not modelled. Copies that protect against aliasing, since values here are immutable.
-- The failure of the random source, so that only an overflow stops the sampling of a deadline.
-- Nil messages and pointers to messages in the codec, and negative ints in the queue of updates.
-- The probes of the gossip engine. Construction of voter sets, whose fingerprint needs SHA-256.
-- Storage, the write-ahead log, the node's goroutine, transport, and the other packages of the
-- repository.
pub mod Base
pub mod Raft
pub mod Swim
