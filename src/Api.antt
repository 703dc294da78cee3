-- ===== src/Api.antt =====
-- src/lib.rs: the exported CANlib functions over the table of open channels.
pub mod Codes
pub mod Memory
pub mod Table
pub mod Send
pub mod Receive
pub mod Control
pub mod Info
pub mod Sending
pub mod Reading
pub mod Handles
pub mod Calls
pub mod Stale
pub mod EndToEnd
pub mod Outputs
pub mod Status
pub mod ReadBack
pub mod ReadBackFd
pub mod ReadBackRemote
pub mod Log
pub mod LogLines
pub mod Overlap
mod OverlapRefs
mod OverlapOff
pub mod OverlapPending
pub mod OverlapClosed
pub mod Tests
