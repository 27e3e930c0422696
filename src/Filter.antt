-- ===== src/Filter.antt =====
-- src/odg/filter.py, and `Finding.matches` of src/odg/findings.py, which tests an artefact against
-- a list of such filters in one pass.
mod Defs
pub mod Semantics
unfoldable pub use Defs.*
