-- ===== src/Node.antt =====
-- A node of the network: hosts and routers (pkg/node/node.go).
pub mod State
pub mod Routes
pub mod Neighbors
pub mod Start
pub mod Network
pub mod Packets
pub mod Rip
pub mod Protocol
pub mod Samples
mod Tests
mod RipTests
