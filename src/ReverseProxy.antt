-- ===== src/ReverseProxy.antt =====
-- The reverse proxy under reverseproxy/.
pub mod LoadBalancer
mod Examples
