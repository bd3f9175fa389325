-- ===== src/Text.antt =====
-- The functions of Go's `strings` and `strconv` packages that the program calls, on bytes.
pub mod Decimal
pub mod Space
pub mod Parts
pub mod Fold
pub mod Utf8
pub mod Order
