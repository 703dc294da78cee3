-- ===== src/Wire.antt =====
-- src/wire.rs: the cannelloni wire format and the translation of identifiers.
pub mod Flags
pub mod Frame
pub mod Encode
pub mod Stream
pub mod Udp
pub mod Reference
mod UdpFrame
pub mod UdpRead
pub mod Encoded
pub mod UdpRoundTrip
pub mod Tests
pub mod Ids
pub mod Decoded
