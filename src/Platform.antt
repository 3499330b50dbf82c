-- ===== src/Platform.antt =====
-- The interfaces through which the library reaches its platform (platform/*.h).
pub mod Transport
pub mod Time
pub mod Storage
pub mod Virtual
mod Tests
