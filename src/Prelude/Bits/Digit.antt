-- ===== src/Prelude/Bits/Digit.antt =====
-- One binary digit of a number, and what the bitwise operators do to it.
use Prim.Native.Nat.{ℕ, zero, suc, ◌+◌, ◌-◌, ◌*◌, ◌/◌, ◌%◌, ◌^◌, ◌≤◌, ◌<◌, min, max}
use Prim.Native.Nat.{bit_and, bit_or, bit_xor, digits, differ}
use Prim.Native.Nat.{bit_and-bitwise, bit_or-bitwise, bit_xor-bitwise}
use mathlib.Core.Path.{◌≡◌, refl, ap, ◌∙◌}
use native.Mathlib.Nat.{pow-suc, one-le-pow}
use native.Mathlib.Omega.{arith}

-- Digit `k` of `x`, 0 or 1.
unfoldable pub bit : ℕ → ℕ → ℕ
bit zero x = x % 2
bit (suc k) x = bit k (x / 2)

-- `~x` for a value of `w` bits.
abbrev pub complement : ℕ → ℕ → ℕ
complement w x = 2 ^ w - 1 - x

-- The fuel of the native operations' definition makes no difference once it suffices.
module _ (z : ℕ → ℕ) (f : ℕ → ℕ → ℕ) where
  digits_enough : (n m a b : ℕ) → a ≤ n → a ≤ m → digits z f n a b ≡ digits z f m a b
  digits_enough zero zero a b p q = refl
  digits_enough zero (suc m) zero b p q = refl
  digits_enough zero (suc m) (suc a) b p q = absurd (omega arith)
  digits_enough (suc n) zero zero b p q = refl
  digits_enough (suc n) zero (suc a) b p q = absurd (omega arith)
  digits_enough (suc n) (suc m) zero b p q = refl
  digits_enough (suc n) (suc m) (suc a) b p q =
      rw (digits_enough n m (suc a / 2) (b / 2) (omega arith) (omega arith))

  digits_step :
      (a b : ℕ)
      → digits z f (suc a) (suc a) b
        ≡ digits z f (suc a / 2) (suc a / 2) (b / 2) * 2 + f (suc a % 2) (b % 2)
  digits_step a b =
      omega (arith, digits_enough a (suc a / 2) (suc a / 2) (b / 2) (omega arith) (omega arith))

pub bit_and_halves : (a b : ℕ) → bit_and a b ≡ bit_and (a / 2) (b / 2) * 2 + min (a % 2) (b % 2)
bit_and_halves zero b = simp bit_and-bitwise (omega arith)
bit_and_halves (suc a) b = simp bit_and-bitwise (digits_step (λ y. 0) min a b)

pub bit_or_halves : (a b : ℕ) → bit_or a b ≡ bit_or (a / 2) (b / 2) * 2 + max (a % 2) (b % 2)
bit_or_halves zero b = simp bit_or-bitwise (omega arith)
bit_or_halves (suc a) b = simp bit_or-bitwise (digits_step (λ y. y) max a b)

-- The exclusive or of two digits.
abbrev pub odd_of : ℕ → ℕ → ℕ
odd_of x y = (x + y) % 2

differ-odd_of : (x y : ℕ) → x < 2 → y < 2 → differ x y ≡ odd_of x y
differ-odd_of zero zero p q = refl
differ-odd_of zero (suc zero) p q = refl
differ-odd_of (suc zero) zero p q = refl
differ-odd_of (suc zero) (suc zero) p q = refl
differ-odd_of zero (suc (suc y)) p q = absurd (omega arith)
differ-odd_of (suc zero) (suc (suc y)) p q = absurd (omega arith)
differ-odd_of (suc (suc x)) y p q = absurd (omega arith)

pub bit_xor_halves : (a b : ℕ) → bit_xor a b ≡ bit_xor (a / 2) (b / 2) * 2 + odd_of (a % 2) (b % 2)
bit_xor_halves zero b = simp bit_xor-bitwise (omega arith)
bit_xor_halves (suc a) b =
    simp bit_xor-bitwise (rw (digits_step (λ y. y) differ a b, differ-odd_of _ _ lo hi))
  where
    lo : suc a % 2 < 2
    lo = omega arith

    hi : b % 2 < 2
    hi = omega arith

pub bit-lt : (k x : ℕ) → bit k x < 2
unfolding bit
bit-lt zero x = omega arith
bit-lt (suc k) x = bit-lt k (x / 2)

pub bit-bit_and : (k a b : ℕ) → bit k (bit_and a b) ≡ min (bit k a) (bit k b)
unfolding bit
bit-bit_and zero a b = omega (arith, bit_and_halves a b)
bit-bit_and (suc k) a b =
    ap (bit k) {x = bit_and a b / 2} {y = bit_and (a / 2) (b / 2)}
      (omega (arith, bit_and_halves a b))
    ∙ bit-bit_and k (a / 2) (b / 2)

pub bit-bit_or : (k a b : ℕ) → bit k (bit_or a b) ≡ max (bit k a) (bit k b)
unfolding bit
bit-bit_or zero a b = omega (arith, bit_or_halves a b)
bit-bit_or (suc k) a b =
    ap (bit k) {x = bit_or a b / 2} {y = bit_or (a / 2) (b / 2)} (omega (arith, bit_or_halves a b))
    ∙ bit-bit_or k (a / 2) (b / 2)

pub bit-bit_xor : (k a b : ℕ) → bit k (bit_xor a b) ≡ odd_of (bit k a) (bit k b)
unfolding bit
bit-bit_xor zero a b = omega (arith, bit_xor_halves a b)
bit-bit_xor (suc k) a b =
    ap (bit k) {x = bit_xor a b / 2} {y = bit_xor (a / 2) (b / 2)}
      (omega (arith, bit_xor_halves a b))
    ∙ bit-bit_xor k (a / 2) (b / 2)

pub bit-complement : (w k x : ℕ) → k < w → x < 2 ^ w → bit k (complement w x) ≡ 1 - bit k x
unfolding bit
bit-complement zero k x lt h = absurd (omega arith)
bit-complement (suc w) zero x lt h = omega (arith, pow-suc 2 w, one-le-pow w 2)
bit-complement (suc w) (suc k) x lt h =
    ap (bit k) {x = complement (suc w) x / 2} {y = complement w (x / 2)}
      (omega (arith, pow-suc 2 w, one-le-pow w 2))
    ∙ bit-complement w k (x / 2) (omega arith) (omega (arith, pow-suc 2 w))

pub bit_and-zero : (a n : ℕ) → a ≤ n → bit_and a 0 ≡ 0
bit_and-zero zero n h = simp bit_and-bitwise refl
bit_and-zero (suc a) zero h = absurd (omega arith)
bit_and-zero (suc a) (suc n) h =
    omega (arith, bit_and_halves (suc a) 0, bit_and-zero (suc a / 2) n (omega arith))

-- A mask of one digit keeps that digit in its place.
pub bit_and_pow : (k x : ℕ) → bit_and x (2 ^ k) ≡ bit k x * 2 ^ k
unfolding bit
bit_and_pow zero x = omega (arith, bit_and_halves x 1, bit_and-zero (x / 2) (x / 2) (omega arith))
bit_and_pow (suc k) x = omega (
  arith,
  bit_and_halves x (2 ^ suc k),
  pow-suc 2 k,
  bit_and_pow k (x / 2),
  ap (λ (t : ℕ). bit k (x / 2) * t) (pow-suc 2 k),
  ap (λ (t : ℕ). bit_and (x / 2) t) {x = 2 ^ suc k / 2} {y = 2 ^ k} (omega (arith, pow-suc 2 k)),
)

pub bit_seven : (x : ℕ) → bit 7 x ≡ x / 128 % 2
unfolding bit
bit_seven x = omega arith

pub bit_eight : (x : ℕ) → bit 8 x ≡ x / 256 % 2
unfolding bit
bit_eight x = omega arith
