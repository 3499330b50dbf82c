-- ===== src/Core.antt =====
-- core/core.c: the connection state machine, and the client that it works on.
pub mod State
pub mod Config
pub mod Valid
pub mod Stable
pub mod Machine
