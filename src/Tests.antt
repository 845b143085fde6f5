-- ===== src/Tests.antt =====
-- The theorems at concrete inputs; no code of the repository.
pub mod Setting
mod Wire
mod Relay
mod Client
mod Steps
mod Session
mod Keys
mod Start
mod Build
mod Begin
mod Connect
mod Listening
mod Carried
