-- ===== src/Auth.antt =====
-- src/middleware/auth.py and src/secret_mgmt/rbac.py: what a request may do, and the tokens of users.
mod Rbac
mod Requests
mod Sessions
pub mod Yielded
pub mod Permitted
pub mod Mixed
pub mod Granted
mod Logins
mod Steps
mod Tokens
mod Stored
mod Safe
mod Exchanged
pub mod Rotated
pub mod Replayed
pub mod Bound
unfoldable pub use Rbac.*
unfoldable pub use Requests.*
unfoldable pub use Sessions.*
unfoldable pub use Logins.*
unfoldable pub use Steps.*
