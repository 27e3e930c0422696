-- ===== src/Artefact.antt =====
-- src/odg/model.py: the identities of artefacts, and the entries of the delivery database as far as
-- rescoring, filtering and reporting read them.
mod Kinds
mod Ids
mod Metadata
unfoldable pub use Kinds.*
unfoldable pub use Ids.*
unfoldable pub use Metadata.*
