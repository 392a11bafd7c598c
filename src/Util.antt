-- ===== src/Util.antt =====
-- src/setops/util: the helpers that the protocols share.
pub mod Permutation
pub mod Serialize
pub mod ParameterCheck
pub mod DummyData
pub mod Tests
