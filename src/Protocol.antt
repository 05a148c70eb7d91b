-- ===== src/Protocol.antt =====
-- common/src/protocol.rs: the wire format.
pub mod Wire
pub mod Reader
pub mod Writer
pub mod Header
pub mod Cached
pub mod Underlay
