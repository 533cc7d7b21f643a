-- ===== src/Util.antt =====
-- src/util.cpp and include/session/util.hpp: texts, times and URLs.
pub mod Text
pub mod Url
pub mod Split
