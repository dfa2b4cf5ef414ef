-- ===== src/Memory.antt =====
-- src/memory/kvs_allocator.c: the allocator of the server.
-- An address is a number below 2 ^ 64. The sizes are those of x86-64: a page size that sysconf gives,
-- 64 bytes for the head of a slab, 32 for that of a large region, alignment to 16 bytes.
pub mod Region
pub mod Slab
pub mod Pool
mod Examples
