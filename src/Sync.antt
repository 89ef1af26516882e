-- ===== src/Sync.antt =====
-- The spin lock, and the atomic operations it stands on.
pub mod Atomic
pub mod Spinlock
pub mod Rwlock
