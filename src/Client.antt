-- ===== src/Client.antt =====
-- frontend/src/lib/api.ts, and the effects of the panel's handlers.
pub mod Json
pub mod Url
pub mod Message
pub mod Error
pub mod Request
pub mod Effect
pub mod Run
pub mod Keeps
pub mod Machine
pub mod Fetch
pub mod Settling
pub mod Upload
