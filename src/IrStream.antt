-- ===== src/IrStream.antt =====
-- native/src/ir_stream.cpp: an IR image stream, whose provider hands out checked-out buffers by a
-- callback; the bridge queues them, lends them as snapshots, and hands each back once.
pub mod Frame
pub mod Copied
pub mod Image
pub mod Callback
pub mod Stream
pub mod Interleaving
pub mod Start
pub mod Deferred
pub mod Accounts
pub mod Pool
pub mod Owned
pub mod Slots
pub mod Once
pub mod Bounds
pub mod Healthy
pub mod Join
pub mod Frames
pub mod Receive
pub mod Entry
pub mod Untouched
pub mod Consume
pub mod Closing
pub mod Failing
pub mod Requests
pub mod Opening
pub mod Starting
pub mod Queries
