-- ===== src/Zupd.antt =====
-- The zupd server: the dynamicupdate plugin of CoreDNS (pkg/zupd/plugin/dynamicupdate).
pub mod Coredns
pub mod Zones
pub mod Dns
pub mod State
pub mod Merge
pub mod Update
pub mod Serve
pub mod Reconcile
pub mod Initialize
pub mod Invariant
pub mod System
pub mod Restart
pub mod Status
pub mod Locks
pub mod Spec
pub mod Manager
pub mod Setup
pub mod Quiet
pub mod Reads
