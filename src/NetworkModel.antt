-- ===== src/NetworkModel.antt =====
-- The connections under networkmodel/, with the socket that they read and write.
pub mod TcpConnection
pub mod ConnectionManager
mod Examples
