-- ===== src/Telegram.antt =====
-- The control plane of internal/telegram and the rate limiter of internal/persistence/redis.
pub mod Parse
pub mod Secret
pub mod Limiter
pub mod Table
pub mod Router
pub mod Help
pub mod Commands
pub mod Bot
pub mod Register
