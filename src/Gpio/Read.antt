-- ===== src/Gpio/Read.antt =====
-- What `gpio_read` of src/pi_gpio.c makes of the levels of the pins.
use mikode.Prelude.{
  ℕ, zero, suc, ◌+◌, ◌*◌, ◌^◌, ◌<◌, ◌≡◌, refl, ap, ◌∙◌, arith, List, [], ◌∷◌, some, ◌<<◌, bit_or,
  u8,
}
use mathlib.Core.Path.{subst}
use native.Mathlib.Nat.{pow-suc, pow-le-pow_right}
use mikode.Prelude.Bits.{bit_or_low}
use mikode.Prelude.Chars.{c_str}
use mikode.Assembler.Value.{strtol, read_digits, to_int}
use mikode.Gpio.Calls.{System, Port, returned, ◌>>=◌, sys_read, log, reads, pure}
use mikode.Gpio.{gpio_read, read_pins, with_bytes, overlay, atoi}

-- What the file `value` of a pin holds, a digit and a newline.
abbrev pub level_line : ℕ → List ℕ
level_line v = (b'0' + v) ∷ b'\n' ∷ []

atoi-level_line : (v a b c : ℕ) → v < 2 → atoi (overlay (level_line v) (a ∷ b ∷ c ∷ [])) ≡ v
unfolding c_str strtol read_digits to_int
atoi-level_line zero a b c h = refl
atoi-level_line (suc zero) a b c h = refl
atoi-level_line (suc (suc v)) a b c h = absurd (omega arith)

-- The levels as the digits of a number, from pin `i` on.
abbrev pub weigh : (ℕ → ℕ) → ℕ → ℕ → ℕ
weigh level zero i = 0
weigh level (suc left) i = level i * 2 ^ i + weigh level left (i + 1)

double : (i : ℕ) → 2 ^ (i + 1) ≡ 2 ^ i * 2
double i = ap (λ t. 2 ^ t) {x = i + 1} {y = suc i} (omega arith) ∙ pow-suc 2 i

next_digit : (val v i : ℕ) → val < 2 ^ i → v < 2 → val + v * 2 ^ i < 2 ^ (i + 1)
next_digit val zero i small low = omega (arith, double i)
next_digit val (suc zero) i small low = omega (arith, double i)
next_digit val (suc (suc v)) i small low = absurd (omega arith)

-- One more digit in front.
put_digit :
    (val v i : ℕ)
    → val < 2 ^ i
    → v < 2
    → i < 8
    → (u8 (bit_or val (u8 v << i)) ≡ val + v * 2 ^ i) × (val + v * 2 ^ i < 2 ^ (i + 1))
put_digit val v i small low h =
    let joined = bit_or_low i v val small in
    let byte = pow-le-pow_right {n = 2} (omega arith) {i = i + 1} {j = 8} (omega arith) in
    let wide = next_digit val v i small low in
    (
      ap (λ t. u8 (bit_or val (t * 2 ^ i))) {x = u8 v} {y = v} (omega arith)
          ∙ ap u8 joined
          ∙ omega (arith, byte, wide),
      wide,
    )

module _ (os : System) where
  -- So many pins have been read, from `i` on.
  abbrev pub after_reads : ℕ → ℕ → Port → Port
  after_reads zero i p = p
  after_reads (suc left) i p = after_reads left (i + 1) (log (reads (p.gpio_fds i)) p)

  -- At `q`, the next `read` of a pin gives its level.
  abbrev pub Gives : (ℕ → ℕ) → Port → ℕ → Type 0
  Gives level q i = os.bytes_read q.calls (q.gpio_fds i) ≡ some (level_line (level i))

  pub after_reads-gpio_fds : (j i : ℕ) (p : Port) → (after_reads j i p).gpio_fds ≡ p.gpio_fds
  after_reads-gpio_fds zero i p = refl
  after_reads-gpio_fds (suc j) i p = after_reads-gpio_fds j (i + 1) (log (reads (p.gpio_fds i)) p)

  read_pins-levels :
      (level : ℕ → ℕ) (left i a b c val : ℕ) (p : Port)
      → i + left ≡ 8
      → val < 2 ^ i
      → ((j : ℕ) → level j < 2)
      → ((j : ℕ) → j < left → Gives level (after_reads j i p) (i + j))
      → read_pins os left i (a ∷ b ∷ c ∷ []) val p
        ≡ (returned (val + weigh level left i), after_reads left i p)
  unfolding read_pins ◌>>=◌ sys_read with_bytes pure
  read_pins-levels level zero i a b c val p e small low h =
      ap (λ t. (returned t, p)) {x = val} {y = val + 0} (omega arith)
  read_pins-levels level (suc left) i a b c val p e small low h =
      let now : Gives level p i =
        subst (Gives level p) {x = i + 0} (omega arith) (h 0 (omega arith)) in
      let digit = atoi-level_line (level i) a b c (low i) in
      let put = put_digit val (level i) i small (low i) (omega arith) in
      rw (now, digit, put.0)
        (read_pins-levels level left (i + 1) _ _ c (val + level i * 2 ^ i)
            (log (reads (p.gpio_fds i)) p) (omega arith) (put.1) low
            (λ j lt.
              subst (Gives level (after_reads j (i + 1) (log (reads (p.gpio_fds i)) p)))
                {y = i + 1 + j} (omega arith) (h (suc j) (omega arith)))
          ∙ ap (λ t. (returned t, after_reads left (i + 1) (log (reads (p.gpio_fds i)) p)))
              {x = val + level i * 2 ^ i + weigh level left (i + 1)}
              {y = val + (level i * 2 ^ i + weigh level left (i + 1))} (omega arith))

  -- If each pin in turn gives its level as a digit and a newline, `gpio_read` reads the eight pins
  -- in order and gives the byte whose digits are the levels, whatever its buffer held.
  pub gpio_read-levels :
      (level : ℕ → ℕ) (a b c : ℕ) (p : Port)
      → os.value_str p.calls ≡ a ∷ b ∷ c ∷ []
      → ((j : ℕ) → level j < 2)
      → ((j : ℕ) → j < 8 → Gives level (after_reads j 0 p) j)
      → gpio_read os p ≡ (returned (weigh level 8 0), after_reads 8 0 p)
  unfolding gpio_read
  gpio_read-levels level a b c p e low h = rw e (
      read_pins-levels level 8 0 a b c 0 p refl (omega arith) low
        (λ j lt. subst (Gives level (after_reads j 0 p)) {y = 0 + j} (omega arith) (h j lt))
      ∙ ap (λ t. (returned t, after_reads 8 0 p)) {x = 0 + weigh level 8 0} {y = weigh level 8 0}
          (omega arith))
