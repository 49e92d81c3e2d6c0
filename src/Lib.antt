-- ===== src/Lib.antt =====
-- Verification library of vanus, a message queue: events of an eventbus are stored in eventlogs,
-- each a row of blocks on the store nodes, and a trigger worker delivers them to subscribers. A
-- store node puts the entries of its Raft logs and its metadata into a write-ahead log.
--
-- - Base: the shared names; Base.Bytes has the byte encodings, writes at an offset and CRC-32C,
--   Base.Search the binary search of Go's `sort`, Base.Int signed integers, and Base.SkipList what
--   is relied on of the third-party skip list: a parameter, with its laws as named fields.
-- - SegmentedFile: internal/store/io/zone/segmentedfile. `SelectSegment`, `createNextSegment`,
--   `Compact` and the loop of `scanSegmentFiles`. A segment is its offsets; the content of its file
--   is a function of the segment, given to the scan.
-- - Wal: internal/store/wal. Wal.Record models record/record.go, Wal.Pack record/packing.go and
--   Wal.Recovery recovery.go. The callback of the scan is a parameter with a state of its own. The
--   inner loop takes fuel, one round more than the bytes of a block, which is proved to suffice.
--   The loop over the segments takes one round more than there are segments.
-- - Vsb: internal/store/vsb. Vsb.Header models block_header.go, Vsb.Append block_append.go and
--   fragment.go, Vsb.Read block_read.go, Vsb.Seek block_seek.go, Vsb.Snapshot block_snapshot.go and
--   Vsb.Open block_open.go. The codec of entries is an interface, Vsb.Codec, with laws for what the
--   format has room for. Vsb.Packet models packet.go of the codec, Vsb.Packet.Record its record.go,
--   over the encoding of the fields, and Vsb.Packet.Format fills the interface with them. The file
--   is a list of bytes; CommitAppend takes the write offset of the stream, which is the end of the
--   file but after ApplySnapshot; a write is done with its callback. An int32 keeps its low 32 bits,
--   and sizes of packets are below 2^31. Loops over packets take fuel, one round more than bytes;
--   Vsb.Refine says when a block holds a list of entries.
-- - Trigger: internal/trigger. Trigger.Offset models offset/offset.go; a method that waits returns
--   `none`. Trigger.Filter models filter/common.go, and Trigger.Filter.Tree the other filters and
--   filter/trigger_filter.go. The expression languages, the JSON paths and the event, which is what
--   is looked up in it, are parameters.
-- - Controller: internal/controller. Controller.Offset models trigger/subscription/offset/offset.go
--   over an interface of the storage with the laws of its writes, and Controller.Segment
--   eventbus/eventlog/segment.go.
-- - Raft: internal/store/raft/storage. Raft.Log models the log of log_storage.go, Raft.Log.Append
--   its Append and postAppend, Raft.Compact and Raft.Barrier compaction.go, Raft.Recovery
--   recovery.go, Raft.State state_storage.go and Raft.Snapshot snapshot_storage.go. The encoding of entries is a parameter, and the map of barriers an interface,
--   Base.OffsetMap. The loop over barriers takes one round more than there are barriers.
--   Raft.Guard puts storage and goroutine together as a step relation, in which the callback of a
--   write and the note of its offsets by postAppend are steps of their own.
-- - Stream: internal/store/io/stream. Stream models onFlushed of stream.go. Its loop takes one round
--   more than there are tasks.
-- - Primitive: internal/primitive. Primitive.Node models the nodes of vanus/id.go.
-- - Client: client. Client.Policy models pkg/policy/policy.go, by the answers to its listings.
--
-- Numbers of Go are native numbers, with `% 2 ^ w` where a value wraps. Logging, metrics, tracing
-- and locks are left out: each method runs whole. Not modelled are the files themselves, the
-- asynchronous engines under them, gRPC, etcd and the generated code.
pub mod Base
pub mod Client
pub mod Controller
pub mod Primitive
pub mod Raft
pub mod Stream
pub mod Wal
pub mod SegmentedFile
pub mod Trigger
pub mod Vsb
