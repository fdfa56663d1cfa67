-- ===== src/Domain.antt =====
-- The core concepts of internal/domain.
pub mod Address
pub mod Chain
pub mod Wei
pub mod Health
pub mod User
pub mod Wallet
pub mod Policy
pub mod Audit
