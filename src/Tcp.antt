-- ===== src/Tcp.antt =====
-- The TCP stack (pkg/tcpstack/tcpstack.go).
pub mod Ring
pub mod State
pub mod ReadBuffer
pub mod WriteBuffer
pub mod Segment
pub mod Wire
pub mod Socket
pub mod Receive
pub mod Stack
pub mod Open
pub mod Close
pub mod Send
pub mod Exchange
pub mod File
pub mod Samples
