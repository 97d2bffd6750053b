-- ===== src/Tests.antt =====
-- Concrete instances of what the development takes from other modules, and the theorems at them.
mod Toy
mod Zupd
mod Updates
mod Restart
mod Api
mod Operator
mod Locks
mod Setup
mod Command
mod Deployed
mod Leases
mod Serving
mod Rewrites
mod Others
mod Reads
