-- ===== src/Deployed.antt =====
-- zupd as the operator deploys it: what its role allows, and how it reads its command line.
pub mod Access
pub mod Launch
pub mod Leases
pub mod Serving
