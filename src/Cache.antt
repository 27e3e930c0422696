-- ===== src/Cache.antt =====
-- src/cache_manager.py: which entries of the cache are pruned.
mod Defs
pub mod Least
unfoldable pub use Defs.*
