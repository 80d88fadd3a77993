-- ===== src/Http.antt =====
-- The HTTP/1.1 layer under http/.
pub mod FirstLine
pub mod HeaderField
pub mod Packet
pub mod Request
pub mod Response
pub mod Total
mod Examples
