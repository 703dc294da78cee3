-- ===== src/Transport.antt =====
-- src/transport.rs: the shared receive state, the connection, and the receive loops.
pub mod Filter
pub mod Shared
pub mod FilterBits
pub mod Ring
pub mod Wait
pub mod Peers
pub mod Allowed
pub mod Rx
mod Pushed
pub mod Conn
pub mod ConnRx
pub mod ConnLaws
pub mod Opening
pub mod StreamRounds
mod StreamGives
pub mod StreamRead
pub mod StreamFrames
pub mod Teardown
pub mod Notify
mod NotifyDrain
mod Teardowns
mod PeerCheck
mod Tests
