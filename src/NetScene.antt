-- ===== src/NetScene.antt =====
-- The net scenes under netscene/ and their dispatch.
pub mod Dispatcher
pub mod Worker
mod Examples
