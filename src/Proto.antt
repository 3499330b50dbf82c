-- ===== src/Proto.antt =====
-- proto/proto.h and proto/proto.c: the MQTT 3.1.1 packets, as bytes.
pub mod Packet
pub mod Cursor
pub mod RemainingLength
pub mod Header
pub mod Encode
pub mod Decode
pub mod RoundTrip
mod Tests
