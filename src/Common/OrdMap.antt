-- ===== src/Common/OrdMap.antt =====
-- `std::map<int, V>` as an association list in the order of its keys, with the iteration by
-- `it++` as the search for the next key.
mod Defs
mod Laws
mod Ahead
mod Append
unfoldable pub use Defs.*
pub use Laws.*
pub use Ahead.*
pub use Append.*
