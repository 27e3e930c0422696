-- ===== src/Finding.antt =====
-- src/odg/findings.py: the configuration of a type of findings, its categorisations, how a finding
-- is put into one of them, and by when it has to be processed.
mod Selectors
mod Categories
mod Configs
mod Validation
pub mod DueDates
pub mod Choice
pub mod Patterns
pub mod Total
unfoldable pub use Selectors.*
unfoldable pub use Categories.*
unfoldable pub use Configs.*
unfoldable pub use Validation.*
