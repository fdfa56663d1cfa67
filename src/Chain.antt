-- ===== src/Chain.antt =====
-- internal/chain: the reader of the chain and the subscriber to its heads. go-ethereum is a parameter.
pub mod Retry
pub mod Records
pub mod Client
pub mod Subscriber
