-- ===== src/Groups.antt =====
-- What the members of a closed group share.
pub mod Keys
