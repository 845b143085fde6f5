-- ===== src/Client/Use.antt =====
-- The use cases of cmd/client/usecase.
pub mod Send
pub mod Receive
pub mod Stream
pub mod Build
