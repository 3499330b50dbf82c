-- ===== src/Lib.antt =====
-- AEMlib, an MQTT 3.1.1 client library in C without dynamic allocation: a model of its source and the
-- theorems about it.
--
-- The program has four layers. proto/ turns packets into bytes and back. platform/ holds the interfaces
-- to a transport, a clock and a storage, as function pointers that the caller gives. core/core.c is the
-- state machine of a connection, and core/client.c the client around it: it stages bytes that a transport
-- did not take, puts received bytes together to packets, gives messages to a callback, and offers the
-- public API of include/aemlib/aemlib.h.
--
-- Which file models what:
--   Base             lists, tests, machine words and memory (memcpy, memmove, slices of a buffer)
--   Status           include/aemlib/status.h; Outcome and Decoded are the results of C functions
--   Proto            proto/proto.h and proto/proto.c: Cursor (the writing helpers), RemainingLength,
--                    Header (fixed headers), Encode, Decode, and RoundTrip for both together
--   Platform         platform/transport.h, platform/time_iface.h, platform/storage.h, and in Virtual
--                    platform/virtual_transport.c
--   Core             core/core.c: State (the structs of aemlib.h), Config (aemlib_core_init), Machine
--                    (aemlib_core_poll and the handlers of the states), Valid (the invariant)
--   Log              core/log.c, include/aemlib/log.h and include/aemlib/config.h, with core/status.c
--   Client           core/client.c: Io (client_send, client_flush_pending, client_read and the rest of
--                    the static functions) and Api (aemlib_init to aemlib_poll)
--   Examples         examples/posix_tcp_transport.c (Tcp, over the calls of POSIX in Sockets), and the
--                    broker and the main function of examples/pubsub_demo.c (Broker, Demo), and
--                    examples/mqtt_broker_demo.c (Live)
-- A definition has the name of its C function without the prefix aemlib_, aemlib_core_ or
-- aemlib_proto_; handlers of states lose `state` and `mqtt` from their names.
--
-- How it is modelled. A buffer is the list of its bytes, and an access outside it is a result of its own
-- (`fault`, `overrun`), never a value. size_t has 64 bits and wraps; uint32_t, uint16_t and uint8_t wrap
-- at their widths; shifts, masks and ORs are written as /, %, * and +, which Base/Words checks on all
-- bytes. The contexts behind `void *ctx` are one world `W`, which every function pointer may change. A
-- function pointer or buffer that may be NULL is an option. The system is a client and the world.
--
-- Bounds and fuel. The loop of client_read runs on fuel, one more than the bytes received: each round
-- that goes on takes at least two bytes off the buffer, and running out of fuel counts as a fault, so
-- that safety includes termination. The loop of broker_tick runs on the same fuel, and running out of it
-- is a result of its own. The loop of mqtt_broker_demo.c has 752 rounds: it goes on for 15 s, and a round
-- takes at least 20 ms. The encoder of the remaining length runs on the size of its buffer, as the C loop
-- does. Buffers are smaller than 2 ^ 62 bytes, and a topic with its payload smaller than 4 GiB, so that
-- the length of a packet fits the uint32_t of the encoder.
--
-- What is assumed of the caller's code: the transport stores and counts no more than it was given
-- (Platform.Transport.IsLawful), and for the theorems on the stream of bytes, what it counts is what
-- leaves through it (IsSink). The callback does not call back into the client, and the two buffers do
-- not overlap.
--
-- Not modelled: the log messages of core/ (as configured no message is ever emitted); what the examples print; examples/smoke_test.c, a test over stubs; tests/.
pub mod Base
pub mod Status
pub mod Log
pub mod Proto
pub mod Platform
pub mod Core
pub mod Client
pub mod Examples
