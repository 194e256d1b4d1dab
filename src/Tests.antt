-- ===== src/Tests.antt =====
-- Runs on small inputs, and each theorem with a hypothesis or an argument at an input that meets it.
mod Delivery
mod TaskQueue
mod Broadcast
mod Http
mod Chat
mod Heartbeat
mod History
mod Auth
mod Dispatch
mod Log
mod Registry
mod Upgrade
mod Ids
mod Serving
mod Instances
mod Frames
mod Rooms
mod Inbox
