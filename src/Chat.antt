-- ===== src/Chat.antt =====
-- The way of a chat message: from the gateway that takes it from its sender to the Logic service that
-- numbers it, stores it and hands it to the gateways of its receivers.
pub mod Keys
pub mod Pairs
pub mod Redis
pub mod Consumer
pub mod History
