-- ===== src/Prelude/Bits/Fields.antt =====
-- Masks and joins of whole fields as quotients, remainders and sums.
use Prim.Native.Nat.{ℕ, zero, suc, ◌+◌, ◌-◌, ◌*◌, ◌/◌, ◌%◌, ◌^◌, ◌≤◌, ◌<◌, max}
use Prim.Native.Nat.{bit_and, bit_or}
use Prim.Native.Nat.{bit_or-bitwise}
use mathlib.Core.Path.{◌≡◌, refl, sym, ap, ◌∙◌}
use native.Mathlib.Nat.{pow-suc, one-le-pow, mul-one, div-one, div-div-eq-div-mul}
use native.Mathlib.Omega.{arith}
use mikode.Prelude.Bits.Digit.{bit_and_halves, bit_or_halves, bit_and-zero}

mod_double : (n x : ℕ) → 0 < n → x % (2 * n) ≡ x / 2 % n * 2 + x % 2
mod_double n x h = grind arith

-- A mask of `k` low digits is the remainder.
pub bit_and_low : (k x : ℕ) → bit_and x (2 ^ k - 1) ≡ x % 2 ^ k
bit_and_low zero x = omega (arith, bit_and-zero x x (omega arith))
bit_and_low (suc k) x =
    let pos : 0 < 2 ^ k = one-le-pow k 2 (omega arith) in
    let halved : (2 ^ suc k - 1) / 2 ≡ 2 ^ k - 1 = omega (arith, pow-suc 2 k) in
    let odd : (2 ^ suc k - 1) % 2 ≡ 1 = omega (arith, pow-suc 2 k) in
    let twice : 2 ^ suc k ≡ 2 * 2 ^ k = omega (arith, pow-suc 2 k) in
    rw (bit_and_halves, halved, odd, bit_and_low k (x / 2))
      (rw (twice, mod_double (2 ^ k) x pos) (omega arith))

-- A mask with clear low digits works on the digits above them.
pub bit_and_shifted : (k x m : ℕ) → bit_and x (m * 2 ^ k) ≡ bit_and (x / 2 ^ k) m * 2 ^ k
bit_and_shifted zero x m = simp (mul-one, div-one)
bit_and_shifted (suc k) x m =
    let pos : 0 < 2 ^ k = one-le-pow k 2 (omega arith) in
    let twice : m * 2 ^ suc k ≡ 2 * (m * 2 ^ k) =
      omega (arith, ap (λ (t : ℕ). m * t) (pow-suc 2 k)) in
    let halved : m * 2 ^ suc k / 2 ≡ m * 2 ^ k = omega arith in
    let even : m * 2 ^ suc k % 2 ≡ 0 = omega arith in
    let quarter : x / 2 / 2 ^ k ≡ x / 2 ^ suc k =
      div-div-eq-div-mul x 2 (2 ^ k) ∙ ap (λ (t : ℕ). x / t) (omega (arith, pow-suc 2 k)) in
    rw (bit_and_halves, halved, even, bit_and_shifted k (x / 2) m, quarter)
      (omega (arith, ap (λ (t : ℕ). bit_and (x / 2 ^ suc k) m * t) (pow-suc 2 k)))

pub bit_or-zero : (a n : ℕ) → a ≤ n → bit_or a 0 ≡ a
bit_or-zero zero n h = refl
bit_or-zero (suc a) zero h = absurd (omega arith)
bit_or-zero (suc a) (suc n) h =
    omega (arith, bit_or_halves (suc a) 0, bit_or-zero (suc a / 2) n (omega arith))

pub zero-bit_or : (b : ℕ) → bit_or 0 b ≡ b
zero-bit_or b = simp bit_or-bitwise refl

double_pow : (q k : ℕ) → q * 2 ^ suc k ≡ 2 * (q * 2 ^ k)
double_pow q k = omega (arith, ap (λ (t : ℕ). q * t) (pow-suc 2 k))

-- `|` of two fields that do not meet is their sum, in either order.
pub bit_or_low : (k q r : ℕ) → r < 2 ^ k → bit_or r (q * 2 ^ k) ≡ q * 2 ^ k + r
bit_or_low zero q r h =
    let none_left : r ≡ 0 = omega arith in rw (none_left, zero-bit_or) (omega arith)
bit_or_low (suc k) q r h = ground (
  arith,
  bit_or_halves r (q * 2 ^ suc k),
  double_pow q k,
  bit_or_low k q (r / 2) (omega (arith, pow-suc 2 k)),
)

pub bit_or_high : (k q r : ℕ) → r < 2 ^ k → bit_or (q * 2 ^ k) r ≡ q * 2 ^ k + r
bit_or_high zero q r h =
    let none_left : r ≡ 0 = omega arith in
    rw none_left (bit_or-zero (q * 2 ^ 0) (q * 2 ^ 0) (omega arith) ∙ omega arith)
bit_or_high (suc k) q r h = ground (
  arith,
  bit_or_halves (q * 2 ^ suc k) r,
  double_pow q k,
  bit_or_high k q (r / 2) (omega (arith, pow-suc 2 k)),
)

-- The two bytes of a word, as the sources cut them out.
pub low_byte : (x : ℕ) → bit_and x 0x00ff ≡ x % 256
low_byte x = bit_and_low 8 x

pub high_byte : (x : ℕ) → bit_and x 0xff00 / 2 ^ 8 ≡ x / 256 % 256
high_byte x = omega (arith, bit_and_shifted 8 x 255, bit_and_low 8 (x / 256))

-- A word put together from two bytes.
pub join_bytes : (l h : ℕ) → l < 256 → bit_or l (h * 2 ^ 8) ≡ h * 256 + l
join_bytes l h p = bit_or_low 8 h l p

pub join_bytes_high : (l h : ℕ) → l < 256 → bit_or (h * 2 ^ 8) l ≡ h * 256 + l
join_bytes_high l h p = bit_or_high 8 h l p

-- `|` shifted down, and its low digits.
pub bit_or_div : (k a b : ℕ) → bit_or a b / 2 ^ k ≡ bit_or (a / 2 ^ k) (b / 2 ^ k)
bit_or_div zero a b = simp div-one
bit_or_div (suc k) a b =
    rw (split (bit_or a b), split a, split b, halved) (bit_or_div k (a / 2) (b / 2))
  where
    split : (x : ℕ) → x / 2 ^ suc k ≡ x / 2 / 2 ^ k
    split x =
        ap (λ (t : ℕ). x / t) (omega (arith, pow-suc 2 k)) ∙ sym (div-div-eq-div-mul x 2 (2 ^ k))

    halved : bit_or a b / 2 ≡ bit_or (a / 2) (b / 2)
    halved = omega (arith, bit_or_halves a b)

mod_pow : (k x : ℕ) → x % 2 ^ suc k ≡ x / 2 % 2 ^ k * 2 + x % 2
mod_pow k x =
    let pos : 0 < 2 ^ k = one-le-pow k 2 (omega arith) in
    ap (λ (t : ℕ). x % t) (omega (arith, pow-suc 2 k)) ∙ mod_double (2 ^ k) x pos

pub bit_or_mod : (k a b : ℕ) → bit_or a b % 2 ^ k ≡ bit_or (a % 2 ^ k) (b % 2 ^ k)
bit_or_mod zero a b =
    let e₁ : a % 2 ^ 0 ≡ 0 = omega arith in
    let e₂ : b % 2 ^ 0 ≡ 0 = omega arith in rw (e₁, e₂) (omega arith)
bit_or_mod (suc k) a b =
    let half : bit_or a b / 2 ≡ bit_or (a / 2) (b / 2) = omega (arith, bit_or_halves a b) in
    let low : bit_or a b % 2 ≡ max (a % 2) (b % 2) = omega (arith, bit_or_halves a b) in
    rw (mod_pow k (bit_or a b), half, low, bit_or_mod k (a / 2) (b / 2)) (sym joined)
  where
    joined :
        bit_or (a % 2 ^ suc k) (b % 2 ^ suc k)
        ≡ bit_or (a / 2 % 2 ^ k) (b / 2 % 2 ^ k) * 2 + max (a % 2) (b % 2)
    joined =
        let a' : a % 2 ^ suc k / 2 ≡ a / 2 % 2 ^ k = omega (arith, mod_pow k a) in
        let b' : b % 2 ^ suc k / 2 ≡ b / 2 % 2 ^ k = omega (arith, mod_pow k b) in
        let a₀ : a % 2 ^ suc k % 2 ≡ a % 2 = omega (arith, mod_pow k a) in
        let b₀ : b % 2 ^ suc k % 2 ≡ b % 2 = omega (arith, mod_pow k b) in
        rw (bit_or_halves (a % 2 ^ suc k) (b % 2 ^ suc k), a', b', a₀, b₀)
