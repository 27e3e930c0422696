-- ===== src/Sprint.antt =====
-- src/sprints/model.py and src/sprints/util.py: sprints, their dates, and the sprint that a due date
-- is assigned to.
mod Defs
mod Search
pub mod Config
pub mod Choice
pub mod Assignment
unfoldable pub use Defs.*
unfoldable pub use Search.*
