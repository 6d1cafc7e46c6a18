-- ===== src/Go.antt =====
-- What the packages use of Go itself: dynamic values, images and strings.
pub mod Value
pub mod Image
pub mod Strings
pub mod Hex
pub mod Decimal
pub mod Scan
pub mod Mime
pub mod Textproto
