-- ===== src/Summary.antt =====
-- src/compliance_summary.py: the severity of a finding with its rescorings, and the most severe
-- categorisation of the findings of an artefact.
mod Defs
pub mod Severest
pub mod Prefiltered
unfoldable pub use Defs.*
