-- ===== src/Prelude/Words.antt =====
-- The fixed-width integers of C as native numbers: conversions, shifts and complement.
use Prim.Native.Nat.{ℕ, ◌+◌, ◌-◌, ◌*◌, ◌/◌, ◌%◌, ◌^◌}
use mikode.Prelude.Bits.{complement}

-- Conversion to `uint8_t` and `uint16_t`.
abbrev pub u8 : ℕ → ℕ
u8 n = n % 256

abbrev pub u16 : ℕ → ℕ
u16 n = n % 65536

infixl 72 ◌<<◌ ◌>>◌
abbrev pub ◌<<◌ : ℕ → ℕ → ℕ
x << k = x * 2 ^ k

abbrev pub ◌>>◌ : ℕ → ℕ → ℕ
x >> k = x / 2 ^ k

-- `~x` on a promoted operand: `int` has 32 bits, and a negative value stands by its bit pattern.
abbrev pub not32 : ℕ → ℕ
not32 x = complement 32 x

-- `a - b` as a `uint16_t` or `uint8_t`; `b` is at most the modulus.
abbrev pub sub16 : ℕ → ℕ → ℕ
sub16 a b = (a + 65536 - b) % 65536

abbrev pub sub8 : ℕ → ℕ → ℕ
sub8 a b = (a + 256 - b) % 256
