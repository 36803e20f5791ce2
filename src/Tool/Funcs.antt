-- ===== src/Tool/Funcs.antt =====
-- The text functions of src/tool/src/Funcs.cc, a module for each group. A `std::string` is the list
-- of its bytes.
pub mod Hex
pub mod Quote
pub mod Base64
pub mod Url
pub mod Split
mod Examples
