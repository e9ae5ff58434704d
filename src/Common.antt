-- ===== src/Common.antt =====
-- The package common: the shrinkable map, the helpers of util.go and the shared types.
pub mod ShrinkMap
