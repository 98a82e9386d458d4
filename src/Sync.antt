-- ===== src/Sync.antt =====
-- src/sync/: synchronisation of tasks on one thread.
pub mod Mutex
pub mod Condvar
