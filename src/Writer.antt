-- ===== src/Writer.antt =====
-- execute/sharded_writer.py: the sharded, checkpointed, uploaded output of one layer.
pub mod H5
pub mod Transport
pub mod State
pub mod Steps
pub mod Rows
pub mod Lifecycle
pub mod Shards
pub mod Invariant
pub mod Uploads
pub mod Closing
pub mod Datasets
pub mod Filling
pub mod Writing
pub mod Resuming
pub mod Finishing
pub mod Loading
pub mod Runs
pub mod Sample
mod Tests
