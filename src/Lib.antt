-- ===== src/Lib.antt =====
-- 91kvstore: the parts of the server between a client's bytes and the stored data.
--
-- A client's bytes collect in a connection buffer (src/network/buffer.c). The codec
-- (src/protocol/codec.c) takes one command after the other from them; the executor
-- (src/kvstore.c) runs each on one of the engines (src/engines) and appends a write that has
-- succeeded to the append-only file (src/persistence/aof.c), whose replay at the next start gives
-- the same commands to the same executor. A SAVE writes all engines to a snapshot
-- (src/persistence/snapshot_store.c), from which a start or a replica loads them; a primary's snapshot
-- reaches a replica in chunks (src/persistence/snapshot_io.c).
--
-- Files and sources
--   Protocol  src/protocol/codec.c. A position is the count of the bytes before it and the bytes
--             that are left; kvs_parse_command_limited is `parse_command_limited`, kvs_encode_command
--             is `encode_command`, kvs_identify_connection is `identify_connection`.
--   Engines   Base has the return codes and the outcomes of allocations, Assoc finite maps as lists,
--             Contract what a write promises. Array is src/engines/kvs_array.c and Hash is
--             src/engines/kvs_hash.c, one function per function of the source (`set_value` is `set`,
--             `mod_value` is `mod`); a read through NULL or outside an array is `none` of `Run`.
--   Buffer    src/network/buffer.c: the growth of the buffers and the splitting of lines.
--   Aof       src/persistence/aof.c over the bytes of the file.
--   Kvs       src/kvstore.c: the table of commands, kvs_filter_protocol and kvs_execute_tokens. The
--             engines are records of operations (`Engine`); those of the array and the hash table are
--             the modelled ones, those of the tree and the skiplist are parameters. Fields is
--             kvs_execute_fields, Replies what it answers, Fields/Handlers the callbacks of the
--             recovery, the replication and the network. Recovery is about a run of client messages and the replay
--             of the AOF that they have written.
--   Memory    src/memory/kvs_allocator.c. Region is the aligned mappings, Slab the blocks of one slab,
--             Pool the pools and the large regions, Pool/Calls the functions of kvs_allocator.h. An
--             address is a number; a list of the source is a list, and what the source finds at the
--             start of an address's region is looked up in the lists.
--   Config    src/config/config.c: the lines and fields of the configuration file, Config/Validate the
--             checks of the whole, Config/Load kvs_config_load; an error is its line and its reason.
--   Snapshot  src/persistence/snapshot_store.c. Writer is the buffer and its batches, Save the contents of
--             a file and Save/Format its specification, Files the temporary file and the rename; Read is
--             the validation, Load the second pass and the load. A cursor is the bytes from its offset
--             on. The tree and the skiplist are visited through `Iteration` and loaded through `Engine`.
--   Transfer  src/persistence/snapshot_io.c: the reader and the receiver of a snapshot's bytes, the latter over
--             the files by their paths.
--   Startup   src/kvstore.c: init_kvengine, dest_kvengine and kvs_install_replication_snapshot; Start is
--             kvs_server_run up to the start of the replication.
--   Common    what the others share.
--
-- Bounds and fuel. `size_t` has 64 bits and `int` 32, with the wrap-around written out where the
-- source can reach it. Loops over bytes are by recursion on the bytes or on a fuel that is the number
-- of bytes; every round takes one at least. The digits of a number have the fuel 19, since a `size_t`
-- has at most 20 digits. The doubling of a buffer has the fuel 32, after which every `int` is passed.
--
-- Parameters. The outcomes of kvs_malloc, of io_uring writes and syncs, of ftruncate and of mapping a
-- file are arguments, so that the theorems hold for each of them. So are, for the allocator, the page
-- size and the answers of mmap and munmap (`System`); a new mapping is taken not to overlap the slabs.
-- The sizes of structures are those of x86-64. Whether a snapshot could be stored and whether a replica
-- is online are arguments of kvs_execute_fields; inet_pton is one of kvs_config_load.
-- For a save and a load, so are the answers to the calls on files and directories; the reads and writes of
-- a transfer are answered by a list. An offset of type `long long` is a number, one above the largest being
-- negative.
--
-- Not modelled. The skiplist, the tree and the replication; in src/kvstore.c what follows the recovery in
-- kvs_server_run, and main, which call the replication and the network in turn. The network loop, RDMA,
-- io_uring, the mapping of files and the log call the system or other libraries.
pub mod Common
pub mod Protocol
pub mod Engines
pub mod Buffer
pub mod Aof
pub mod Kvs
pub mod Memory
pub mod Config
pub mod Snapshot
pub mod Transfer
pub mod Startup
