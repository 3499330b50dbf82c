-- ===== src/Examples.antt =====
-- examples/: a transport over POSIX sockets, the demonstration with its broker, and the one
-- over a socket.
pub mod Sockets
pub mod Tcp
pub mod Broker
pub mod Demo
pub mod Live
