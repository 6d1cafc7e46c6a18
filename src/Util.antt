-- ===== src/Util.antt =====
-- internal/util/util.go.
pub mod ReadBytes
pub mod Convert
