-- ===== src/Cloud.antt =====
pub mod Version
pub mod Payload
pub mod Topics
pub mod Client
pub mod Process
pub mod Codec
