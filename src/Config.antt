-- ===== src/Config.antt =====
-- The configuration core: src/config.cpp, src/config/base.cpp and their headers.
pub mod Data
pub mod Bt
pub mod Prune
pub mod Diff
pub mod Apply
pub mod Wire
pub mod Message
pub mod Encrypt
pub mod Base
pub mod Lifecycle
pub mod Signing
