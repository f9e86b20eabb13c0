-- ===== src/Tests.antt =====
-- Runs of the definitions on concrete inputs: a disk and a manifest in memory, which keep the laws
-- that the use cases rely on, and an example of each theorem that has conditions.
mod Disk
mod Table
mod Laws
mod Data
mod Reaping
mod Returning
mod Purging
mod Domain
mod Deciding
mod Gating
mod Indexing
mod Journaling
mod Syncing
mod Guarding
