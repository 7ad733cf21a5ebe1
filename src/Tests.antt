-- ===== src/Tests.antt =====
-- Runs of the model and the theorems at concrete inputs.
mod Tables
mod Merge
mod PortablePath
mod Skill
mod Canonical
mod Wire
mod Registry
mod Outbox
mod Access
mod Local
mod Release
mod Sync
mod Locator
mod Object
