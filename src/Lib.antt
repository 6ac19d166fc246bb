-- ===== src/Lib.antt =====
-- Verification of the graph_extraction pipeline: what keeps its data on disk and off it.
--
-- The pipeline computes activations and Jacobians of language models and writes them, row by row,
-- to numbered HDF5 shards. Four of its parts decide whether those rows survive crashes, full
-- disks and lost connections:
--
-- * Writer (execute/sharded_writer.py): `ShardedLayerWriter`, `write_manifest` and
--   `load_shard_rows`. Writer.State has the writer's fields as a record, the scratch disk, the
--   checkpoint and the remote store as one state, and the errors. Writer.Steps has the methods below
--   `write_rows` and `close` under their own names, Writer.Rows has `write_rows`, and
--   Writer.Lifecycle `__post_init__`, `close`, `write_manifest` and `load_shard_rows`. Writer.Runs is
--   the step relation of a job that starts, writes, crashes, loses scratch files and starts
--   again. The other files below Writer are the invariant and the proofs.
-- * NodeRelay (execute/node_relay.py): `push`, `ensure_local` and `remote_exists` over rsync,
--   one of the transports that the writer works over. NodeRelay.Backend puts it behind the
--   interface Writer.Transport.
-- * Upload (upload.py): the content-addressed store on the SFTP server. Upload.State has the local
--   files, the local pointers `.ptrs/`, the remote index and the remote cache. Upload.Push has
--   `_push_file` and `cmd_push`, Upload.Pull `_pull_file` and `cmd_pull`, and Upload.Maintain
--   `_fetch_ptrs`, `cmd_purge`, `cmd_clean` and the deletion in `cmd_ls`. Upload.Overrides has
--   `cmd_apply_overrides`.
-- * RemoteStorage (execute/remote_storage.py): `ensure_local`, `push` and the worker of
--   `AsyncPusher` over Upload.
--
-- Around them stand
--
-- * Recovery (scripts/helper/finish_perturbed_sweep_manifests.py,
--   scripts/helper/reconstruct_perturbed_sweep_manifests.py, scripts/helper/reclaim_pushed_shards.py): what
--   is done about layers whose process was killed. Recovery.Finish has `finish_layer`, on the state
--   of Upload; Recovery.Rebuild has `_reconstruct_progress` and `write_manifest_for_layer`, the
--   first pass of the reconstruction, on the state of Writer; and Recovery.Reclaim has the deletion
--   of pushed shards.
-- * Browser (browser.py, and `_build_tree` of upload.py): the tree of the remote index in Browser, the
--   keys of the browser and `browse` in Browser.App. Browser.Marks has a session with one mark for
--   each file, in place of the two sets. Browser.Depth is about the fuel.
-- * BatchSize (scripts/helper/find_max_batch_size.py): the search for the largest batch.
-- * Config (config.py): batch sizes and directories by node.
-- * KvCache (construct/kv_cache_subgraph.py, construct/kv_cache_export.py): the tensors of the residual
--   stream by name in KvCache, and the functions that cut a subgraph and keep its file in
--   KvCache.Files. Onnx has the graphs and what a graph computes.
--
-- Base has lists over the native numbers, slices, dictionaries, Boolean tests, decimal numbers and
-- tests on texts.
--
-- How the code is modelled. A method takes the state and returns it with a result or an error,
-- as the code leaves it when it raises. The loop of `write_rows` runs on fuel, one unit for every
-- row still to write: a round writes one row at least when `shard_rows` is positive, so the fuel
-- is enough. The loop that waits for uploads takes one pending upload in every round, and its fuel
-- is their number. The doubling of the batch search has `max_batch + 1` rounds and its bisection as
-- many as the sizes between its ends, which both shrink in every round. The walk below a directory
-- of the browser's tree has one round more than the tree is deep, and every subdirectory is one
-- deeper. What h5py does with a dataset, what rsync does with a file, xxhash, and the transport
-- below the writer are parameters with the documented behaviour as hypotheses. A push of Upload is a list of writes to
-- the remote store and the local pointers in the order of the code, so that a push that breaks
-- off has done some first of them; `sftp_put` and `sftp_write_atomic` rename a finished temporary
-- file, and are one write each. Content is hashed as a whole. Times are in nanoseconds.
--
-- The reconstruction is modelled for one layer, whose scratch directory is read up to a number of
-- shards: up to 100000, the five digits of a name keep the order of the names that of the numbers.
-- `int()` of an attribute is a parameter, for which nothing is assumed; free space is a function of
-- what is on scratch, in bytes.
--
-- What is not modelled: prints, progress boards, time stamps of the checkpoint, the removal of
-- empty directories and temporary names. Threads are not modelled as such: an upload of the
-- writer ends where its result is taken, and the pushes of `cmd_push` are done one after the
-- other. A command ends by returning, by an exception or by leaving the program, and the model says
-- which. The second pass of the reconstruction, which pushes the shards, is not modelled. In
-- Recovery.Finish a push may break off after any number of its writes. In the model of the writer a
-- shard's path is its number, and the datasets of one load have different names. The order of the remote index is the order in which `_fetch_ptrs` walks it; only paths that end in
-- `.ptr` are in it. `cmd_meta`, the drawing of the browser, the numeric parts
-- of the pipeline, its plots and its model exports are not modelled.
mod Base
pub mod Writer
pub mod Recovery
pub mod NodeRelay
pub mod Upload
pub mod Browser
pub mod RemoteStorage
pub mod Config
pub mod BatchSize
pub mod Onnx
pub mod KvCache
