-- ===== src/Log.antt =====
-- include/mart-common/logging: what is logged, how it is printed, and where it goes.
pub mod Levels
pub mod Streams
pub mod Format
pub mod Sinks
pub mod Logger
mod Tests
