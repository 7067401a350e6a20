-- ===== src/Realtime.antt =====
-- deploy/worker/realtime_object.mjs: the Durable Object of a realtime room.
pub mod Room
pub mod Delivery
pub mod Growth
pub mod Actions
pub mod Message
pub mod Join
pub mod Events
mod Tests
