-- ===== src/Base/Table.antt =====
-- JavaScript's Map with string keys, in insertion order, and its laws.
mod Defs
mod Laws
mod Weights
unfoldable pub use Defs.*
pub use Laws.*
unfoldable pub use Weights.*
