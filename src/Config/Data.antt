-- ===== src/Config/Data.antt =====
-- The application data of a config message (include/session/config.hpp): scalars, sets and nested
-- dicts, with the operations of `std::map` on a dict, and what makes such data well formed.
mod Dicts
mod Shape
mod Kept
unfoldable pub use Dicts.*
unfoldable pub use Shape.*
pub use Kept.*
