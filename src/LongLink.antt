-- ===== src/LongLink.antt =====
-- The WebSocket layer under longlink/.
pub mod WebSocketPacket
mod Examples
