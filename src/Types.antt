-- ===== src/Types.antt =====
-- src/types: the data that the parts exchange.
mod Effect
mod Problem
mod Registry
mod Crypto
mod Context
mod Check
mod Result
unfoldable pub use Effect.*
pub use Problem.*
pub use Registry.*
pub use Crypto.*
pub use Context.*
pub use Check.*
pub use Result.*
pub mod ProblemTypes
