-- ===== src/App.antt =====
-- The use cases of internal/application.
pub mod Ports
pub mod Wallets
pub mod Onboarding
pub mod MiniApp
pub mod ChainSync
pub mod Health
