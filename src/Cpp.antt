-- ===== src/Cpp.antt =====
-- What the plugins use of C++ itself: exceptions, conversions between text and integers.
pub mod Result
pub mod Decimal
pub mod Convert
