-- ===== src/Import.antt =====
-- cmd/appstore-import/main.go: moving a standalone registry's data onto the platform. The target
-- is written in one transaction; the source is only read.
pub mod Session
pub mod Accounts
pub mod Transfer
pub mod Steps
pub mod Growth
pub mod Additions
pub mod Outcome
pub mod Settled
pub mod Members
pub mod Copies
pub mod Owners
pub mod Rerun
pub mod Copied
pub mod Brought
pub mod Bringing
pub mod Landed
pub mod Landing
pub mod Committed
