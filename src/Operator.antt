-- ===== src/Operator.antt =====
-- The ksdns operator (controllers/dns).
pub mod Objects
pub mod Kubernetes
pub mod Run
pub mod Labels
pub mod Corefile
pub mod Resources
pub mod Retry
pub mod Ensure
pub mod Reconcile
pub mod Main
