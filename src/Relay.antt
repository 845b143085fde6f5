-- ===== src/Relay.antt =====
-- The relay (cmd/relay): circuit state, its repository, the use cases and the handler.
pub mod ConnState
pub mod World
pub mod Repository
pub mod Use
pub mod Handler
pub mod Serve
pub mod Leaves
