-- ===== src/Client.antt =====
-- core/client.c: the client layer, transport I/O over the encoders and decoders of Proto and the state
-- machine of Core. Log messages are left out.
pub mod Io
pub mod Api
mod Tests
