-- ===== src/Rescoring.antt =====
-- src/rescore/utility.py: how rescorings are scoped, found for a finding, and computed from rules.
mod Applying
mod Grouping
mod Scoping
pub mod Leading
pub mod Validated
pub mod Reapplied
pub mod Ordering
unfoldable pub use Applying.*
unfoldable pub use Grouping.*
unfoldable pub use Scoping.*
