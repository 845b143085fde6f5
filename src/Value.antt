-- ===== src/Value.antt =====
-- The value objects of shared/domain/value_object that the protocol is built from.
pub mod Command
pub mod Stream
pub mod Circuit
pub mod Relay
