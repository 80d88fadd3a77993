-- ===== src/Utils.antt =====
-- The utilities under utils/.
pub mod StrUtil
pub mod Decimal
pub mod Base64
pub mod AutoBuffer
pub mod MessageDigest
pub mod MessageQueue
pub mod Yaml
mod Examples
