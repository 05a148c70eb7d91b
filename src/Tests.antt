-- ===== src/Tests.antt =====
-- Runs at concrete inputs, over small stand-ins for the code of other crates.
pub mod Addresses
mod Protocol
mod Crypto
mod Server
mod Relay
mod Socks
mod Reconnect
mod Session
mod Link
mod Pool
mod Dns
mod TcpRelay
mod Underlay
mod Http
mod Associate
mod Share
mod Replies
mod Gui
mod Traffic
mod Links
