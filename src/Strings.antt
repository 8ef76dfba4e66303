-- ===== src/Strings.antt =====
-- hbm/string: the helpers on `std::string`.
pub mod Split
pub mod Replace
pub mod Trim
mod Tests
