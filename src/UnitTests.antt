-- ===== src/UnitTests.antt =====
-- The tests of the sources, run on the model. A test returns, or panics at the assertion that fails.
pub mod Asserts
pub mod WireUdp
pub mod WireBatch
pub mod WireStream
pub mod WireProps
pub mod WireTrips
pub mod WireAlways
pub mod ConfigPoints
pub mod ConfigProps
pub mod ConfigAlways
pub mod TransportRing
pub mod TransportWait
pub mod TransportFull
pub mod TransportLoops
pub mod TransportConn
pub mod ApiPoints
pub mod ApiFrames
pub mod ApiChannels
pub mod ApiLog
mod Tests
