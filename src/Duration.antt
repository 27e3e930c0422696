-- ===== src/Duration.antt =====
-- src/util.py: `convert_to_timedelta`, which reads the durations of configurations and of stored
-- findings, with Python's `int` and `str.strip` as far as it needs them.
mod Defs
pub mod Decimal
pub mod Reading
unfoldable pub use Defs.*
