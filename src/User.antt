-- ===== src/User.antt =====
-- The configs that a user's devices share.
pub mod Ids
pub mod Types
pub mod Community
pub mod Contacts
pub mod Profile
pub mod Local
pub mod Convos
