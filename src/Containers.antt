-- ===== src/Containers.antt =====
-- The ordered containers of the C++ standard library that the program uses.
pub mod SortedSet
pub mod SortedMap
