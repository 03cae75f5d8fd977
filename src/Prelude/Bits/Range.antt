-- ===== src/Prelude/Bits/Range.antt =====
-- The range and the commutativity of the bitwise operators.
use Prim.Native.Nat.{ℕ, zero, suc, ◌/◌, ◌^◌, ◌≤◌, ◌<◌}
use Prim.Native.Nat.{bit_and, bit_or, bit_xor}
use Prim.Native.Nat.{bit_and-bitwise}
use mathlib.Core.Path.{◌≡◌, refl, sym, ◌∙◌}
use native.Mathlib.Nat.{pow-suc}
use native.Mathlib.Omega.{arith}
use mikode.Prelude.Bits.Digit.{bit_and_halves, bit_or_halves, bit_xor_halves, bit_and-zero}

-- The bitwise operators stay within a width.
pub bit_and-lt : (k a b : ℕ) → a < 2 ^ k → bit_and a b < 2 ^ k
bit_and-lt zero a b h = omega (arith, zero_below a b (omega arith))
  where
    zero_below : (a b : ℕ) → a ≡ 0 → bit_and a b ≡ 0
    zero_below a b e = rw e (simp bit_and-bitwise refl)
bit_and-lt (suc k) a b h = omega (
  arith,
  bit_and_halves a b,
  pow-suc 2 k,
  bit_and-lt k (a / 2) (b / 2) (omega (arith, pow-suc 2 k)),
)

pub bit_or-lt : (k a b : ℕ) → a < 2 ^ k → b < 2 ^ k → bit_or a b < 2 ^ k
bit_or-lt zero a b p q =
    let e₁ : a ≡ 0 = omega arith in let e₂ : b ≡ 0 = omega arith in rw (e₁, e₂) (omega arith)
bit_or-lt (suc k) a b p q =
    let twice = pow-suc 2 k in
    omega (
      arith,
      twice,
      bit_or_halves a b,
      bit_or-lt k (a / 2) (b / 2) (omega (arith, twice)) (omega (arith, twice)),
    )

pub bit_xor-lt : (k a b : ℕ) → a < 2 ^ k → b < 2 ^ k → bit_xor a b < 2 ^ k
bit_xor-lt zero a b p q =
    let e₁ : a ≡ 0 = omega arith in let e₂ : b ≡ 0 = omega arith in rw (e₁, e₂) (omega arith)
bit_xor-lt (suc k) a b p q =
    let twice = pow-suc 2 k in
    omega (
      arith,
      twice,
      bit_xor_halves a b,
      bit_xor-lt k (a / 2) (b / 2) (omega (arith, twice)) (omega (arith, twice)),
    )

bit_and_comm_fuel : (n a b : ℕ) → a ≤ n → bit_and a b ≡ bit_and b a
bit_and_comm_fuel n zero b h = bit_and-bitwise 0 b ∙ sym (bit_and-zero b b (omega arith))
bit_and_comm_fuel zero (suc a) b h = absurd (omega arith)
bit_and_comm_fuel (suc n) (suc a) b h = omega (
  arith,
  bit_and_halves (suc a) b,
  bit_and_halves b (suc a),
  bit_and_comm_fuel n (suc a / 2) (b / 2) (omega arith),
)

pub bit_and_comm : (a b : ℕ) → bit_and a b ≡ bit_and b a
bit_and_comm a b = bit_and_comm_fuel a a b (omega arith)
