-- ===== src/Base/Bits.antt =====
-- `&`, `|` and `^` as arithmetic. Each law goes by the lowest binary digit.
pub mod Digit
pub mod Fields
pub mod Split
pub use Digit.{bit_and_step, bit_or_step, bit_xor_step}
pub use Fields.*
