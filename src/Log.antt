-- ===== src/Log.antt =====
-- The logger of server/src/base/AeroLog: the ring buffer between a thread and the writer (`Log.Spsc`)
-- and the writer's rounds (`Log.Worker`).
pub mod Spsc
pub mod Worker
