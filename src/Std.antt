-- ===== src/Std.antt =====
-- The algorithms of the C++ standard library that the protocols call: the order of byte vectors,
-- `std::sort`, `std::binary_search`, `std::find`.
pub mod Order
pub mod Search
pub mod Bits
