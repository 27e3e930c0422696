-- ===== src/Cvss.antt =====
-- src/odg/cvss.py and src/rescore/model.py: vectors of the CVSS, and rules that match them.
mod Defs
mod Rules
mod Categorised
pub mod Matching
pub mod Chosen
pub mod Unread
pub mod Roundtrip
unfoldable pub use Defs.*
unfoldable pub use Rules.*
unfoldable pub use Categorised.*
