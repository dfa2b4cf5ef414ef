-- ===== src/Kvs/Recovery.antt =====
-- src/kvstore.c and src/persistence/aof.c: the engines that a replay of the AOF rebuilds.
pub mod Keeps
pub mod Dispatch
pub mod Client
pub mod Tokens
pub mod Served
pub mod Again
pub mod Rebuild
mod Examples
