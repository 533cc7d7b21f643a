-- ===== src/Tests.antt =====
-- The properties at concrete inputs, and runs of the definitions.
mod Examples
mod DiffTests
mod WireTests
mod RoundTripTests
mod EncryptTests
mod BaseTests
mod MergeTests
mod PartTests
mod UrlTests
mod FieldTests
mod UserTests
mod GroupTests
mod SigningTests
mod RekeyTests
mod MessageTests
mod SubaccountTests
