-- ===== src/Client.antt =====
-- The client (cmd/client and shared/domain/entity/circuit.go).
pub mod Circuit
pub mod World
pub mod Repository
pub mod Streams
pub mod Directory
pub mod Use
pub mod Socks
pub mod Hidden
pub mod Resolve
pub mod Controller
