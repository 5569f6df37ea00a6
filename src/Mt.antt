-- ===== src/Mt.antt =====
-- The thread-safe parts: include/mart-common/mt and include/mart-common/experimental/mt.
pub mod TrippleBuffer
pub mod FastMutex
pub mod Channel
