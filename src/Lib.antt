-- ===== src/Lib.antt =====
-- Verification of the Espresso streamers, the Go library that streams batches of a rollup from the
-- Espresso network: its packages op, op/derivation and nitro.
--
-- The program. op/batch_buffer.go keeps batches that came too early, in order of their numbers.
-- op/op_streamer.go is the streamer: `Update` scans HotShot blocks and unmarshals their
-- transactions, `CheckBatch` holds each batch against the finalized L1 and the registered batcher,
-- an accepted or undecided batch becomes the head or goes into the buffer, and `HasNext`, `Peek`
-- and `Next` hand the batches out one number after the other; `Refresh` follows the safe batch and
-- the light client, and resets the streamer when they move back. op/buffered_streamer.go keeps a
-- window of delivered batches for replay over any streamer. The package nitro packs messages into
-- signed payloads of two formats, and its streamer reads them back into a map by position.
--
-- The model. A Go struct is a record and a method a function that returns the new record beside its
-- result; a nil pointer is `none`. A `uint64` is a native number, with `% 2 ^ 64` written out where
-- the code adds. Addresses and hashes are the numbers that their bytes spell.
--
-- Base: shared names, Boolean tests, lists measured by native numbers, `uint64` arithmetic.
-- Op.Batch: the values and the interface `Batch` (a value of the interface is the record of what
--   its methods return).
-- Op.Buffer: op/batch_buffer.go, with `slices.BinarySearchFunc` and `slices.Insert` of the Go
--   standard library written out; the children prove what the search finds (Search), that `Insert`
--   is insertion in order (Order), what happens at the front (Ends), and which duplicates it reports
--   (Duplicates).
-- Op.Streamer.Deps: what op/op_streamer.go calls and does not implement, as a record of
--   parameters: the clients, the contract's bindings, the clock, the LRU caches, the unmarshaler.
--   Each client call returns a new client state, so answers may differ from call to call.
-- Op.Streamer.State, Refresh, Check, Head, Fetch, Update: the methods of op/op_streamer.go; Valid is
--   their invariant. The children of Refresh are about its two halves together (Positions, Safe) and
--   about a light client that steps back (Rewind) or does not (Steady); those of Check about what is
--   accepted (Accept, Frame) and what the cache goes back to (Later, Vetted, Vouched);
--   those of Head about `HasNext` (After, Rounds, Yields), `Next` and `SetProperHead` (Fork); those of Fetch about what reading keeps
--   (Place, Keeps, Range, Sound), what it skips and reads again (Skip, Rescan), and the way of a posted
--   batch to the head (Final, Reaches, Turns, Posted); those of Update about its end (Ends, Total,
--   Gaps) and what it keeps (Keeps).
-- Op.Streamer.Calls: sequences of calls of all methods, by step relations; the batches that come out
--   so, their order (Cursor, Order) and their signers (Authorized).
-- Op.Streamer.Demo is a concrete instance, and the modules called Tests, and
-- PostedTests, run what stands beside them.
--
-- Op.Headers: `GetFinalizedL1` of op/op_streamer.go.
-- Op.Interface: op/interface.go as a record of operations, and the laws a client may count on;
--   Op.Streamer.Instance fills both with the batch streamer.
-- Op.Buffered: op/buffered_streamer.go over any streamer of the interface; the children are about the
--   batches that it reads and shows (Reads, Peeks, Consecutive), and the window that it keeps and replays
--   (Window, Follow, Replay); over the batch streamer, about `Refresh` (Sync), also when the light
--   client steps back (Redeliver) and after the origin has (Misaligned).
--
-- Op.Derivation: op/derivation/espresso_batch.go over RLP, signatures and the derivation; Laws is
--   about what unmarshals, Blocks about the way to a block and back.
-- Nitro.Bytes, Types, Codec: bytes and big endian integers, nitro/nitro_types.go, and what the package
--   calls and does not implement (RLP, JSON, Keccak, secp256k1), as a record of parameters.
-- Nitro.V0, Nitro.V1: nitro/v0_nitro_types_binary.go and nitro/v1_nitro_type_binary.go.
-- Nitro.Binary: `MarshalBinary` and `UnmarshalBinary` of the formats.
-- Nitro.Payload: nitro/utils.go; its children are about building (Build), verifying (Verify) and
--   messages that share a signature (Ambiguous).
-- Nitro.Monitor: nitro/batch_addr_monitor.go.
-- Nitro.Streamer: nitro/nitro_streamer.go; the map is an association list. Its children: the part that
--   reads blocks (Hotshot), the ways a fetch goes (Outcome), the order of the map (Queue), which all
--   operations keep (Invariant, Store, Reading, Sequence, Progress), rounds one after the other
--   (CatchUp), the block to restart from (Earliest), the count of messages (Count), the goroutine of `Start` interleaved
--   with the calls of the user (Interleave) and the states that are reached so (Reach), which
--   messages these hold (Authentic, Guarded, Signed), the loop of `Start` (Start), a `Reset` in the
--   middle of a round (Race, Relabel), what becomes of a posted payload (Delivery, Posted), the
--   abstract view of the map (Feed, Refines), and a user who peeks and advances meanwhile (Consume): which messages
--   they take (Taken), and that none is lost (Stable, Lasting).
-- Nitro.Debounce: the debouncer of nitro/utils.go for the log of repeated errors, over readings of the
--   clock; Streak is about its answers to repeated errors.
--
-- Fuel. The loop of `slices.BinarySearchFunc` has the length of the list as fuel, which bounds the
-- interval that it halves (Search). The loop of `HasNext` has one more than the number of batches at
-- the head and in the buffer, which falls in every round (Head.Rounds). The loop of `Update` need not
-- end, so its fuel is an argument and running out is `none`: it ends with more fuel than there are
-- blocks left if the client answers each block (Update.Total), and never ends with a client that
-- answers a range with an empty list (Update.Gaps). The loop of the buffered streamer's `Next` needs
-- one round over a streamer that continues the window, as does that of `Peek` (Buffered.Reads,
-- Buffered.Peeks), and one more than its distance from the starting position over one that is behind
-- (Buffered.Follow). The parsers of the nitro formats have one more than the bytes as fuel, and each
-- round reads 8 bytes or more; the loop over the messages of a payload has one more than their number
-- (Streamer.Reading). The loop over the higher positions of the nitro streamer's map has as fuel one
-- more than the positions behind the message's up to the highest one, which is enough unless that is
-- the last uint64: then the code's counter wraps and its loop never ends, whatever the fuel, and
-- running out is `none` (Streamer.Queue, Streamer.Store). What calls it answers `none` as well, and a
-- step of the goroutine that does not end leads to no state. The loop of `GetMessageCount` has as fuel
-- the positions up to the one behind the highest, where it ends (Streamer.Count).
--
-- Aliasing. `Peek` of the buffer and the head of the streamer are pointers into the buffer's array.
-- The element that the head points to has been popped, so it lies before the slice that later calls
-- write to; the model copies it.
--
-- Concurrency. The goroutine of the nitro streamer's `Start` takes the lock only to store the messages
-- of one transaction and to jump to the next block. Interleave makes each of these, the reading of the
-- block to begin at and the fetch a step of its own, and lets the calls that advance and reset the
-- streamer come between any two of them. The goroutine reads the position without the lock; the model
-- takes that read for one step.
--
-- Not modelled: what is written to the log, and the contexts with the end that they put to a loop
-- (no state of the program depends on them), and the generated contract bindings of op/bindings.
pub mod Base
pub mod Op
pub mod Nitro
