-- ===== src/Utils.antt =====
-- utils/utils.go, and the values that it merges.
pub mod Json
pub mod Merge
pub mod DeepEqual
