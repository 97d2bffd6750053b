-- ===== src/Api.antt =====
-- The API types of the operator (apis/dns/v1alpha1).
pub mod Split
pub mod Records
