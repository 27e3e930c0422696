-- ===== src/Sla.antt =====
-- src/sla_violation_profiler_extension/__main__.py: which findings of a release were not processed
-- in time, with the trace of events that shows it.
mod Defs
pub mod Violated
pub mod Traced
pub mod Proved
pub mod Selected
unfoldable pub use Defs.*
