-- ===== src/Crypto.antt =====
-- src/crypto_extension: the validation of cryptographic assets against standards.
mod Standards
mod Assets
mod Requirements
mod Algorithms
mod Certificates
mod Dispatch
pub mod Unmet
pub mod Allowing
pub mod Compliant
pub mod Kinds
pub mod Certified
pub mod Raising
unfoldable pub use Standards.*
unfoldable pub use Assets.*
unfoldable pub use Requirements.*
unfoldable pub use Algorithms.*
unfoldable pub use Certificates.*
unfoldable pub use Dispatch.*
