-- ===== src/Config/Message/RoundTrip.antt =====
-- Reading undoes writing.
pub mod Diffs
pub mod Unknowns
pub mod Lags
pub mod Signed
pub mod Writable
pub mod Whole
pub mod Parsed
pub mod Keys
pub mod Again
pub mod Edited
