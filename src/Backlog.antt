-- ===== src/Backlog.antt =====
-- src/k8s/backlog.py and src/backlog_controller.py: the items of the backlog, how pods claim them,
-- and how the controller releases claims and scales.
mod Items
mod Claims
mod Controller
mod Sharing
mod Distinct
pub mod Exclusive
pub mod Urgent
pub mod Retried
pub mod Scaled
unfoldable pub use Items.*
unfoldable pub use Claims.*
unfoldable pub use Controller.*
unfoldable pub use Sharing.*
