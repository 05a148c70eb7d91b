-- ===== src/Server.antt =====
-- server/src: the server's tables, its demultiplexer and its handlers.
pub mod Demux
pub mod InFlight
pub mod Pool
pub mod TcpRelay
pub mod Underlay
pub mod RelayBack
pub mod Dns
