-- ===== src/Engines.antt =====
-- src/engines/: the storage engines, and what the executor of src/kvstore.c asks of one.
-- A key or a value is the bytes of its C string. A function that allocates takes the outcomes of
-- its calls of kvs_malloc, in order: `mem i` tells whether call number i succeeds.
pub mod Base
pub mod Assoc
pub mod Contract
pub mod Array
pub mod Hash
