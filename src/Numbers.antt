-- ===== src/Numbers.antt =====
-- The numbers that the program computes with and does not implement: decimals of
-- github.com/shopspring/decimal, and float64.
pub mod Decimal
pub mod Laws
pub mod Float
pub mod Whole
pub mod Fixed
pub mod Order
pub mod Rounding
pub mod Sums
