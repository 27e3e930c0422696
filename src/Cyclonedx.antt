-- ===== src/Cyclonedx.antt =====
-- src/scanner_utils/cyclonedx.py: the rating of a vulnerability in a CycloneDX document.
mod Defs
pub mod Best
unfoldable pub use Defs.*
