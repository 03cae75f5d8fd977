-- ===== src/Prelude/Bits.antt =====
-- Facts about the bitwise operators of C at variables.
mod Digit
mod Fields
mod Range
unfoldable pub use Digit.*
pub use Fields.*
pub use Range.*
