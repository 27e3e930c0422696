-- ===== src/Snapshot.antt =====
-- src/odg/model.py: `ComplianceSnapshot`, and src/artefact_enumerator.py, which keeps the snapshots
-- up to date and decides which backlog items are created.
mod Defs
mod Enumerating
mod Counting
pub mod Purged
pub mod Once
unfoldable pub use Defs.*
unfoldable pub use Enumerating.*
