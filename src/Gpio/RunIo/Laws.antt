-- ===== src/Gpio/RunIo/Laws.antt =====
-- The pins' part of `run_io` in src/display.c does what Turn.antt says.
use mikode.Prelude.{
  ℕ, zero, suc, ◌+◌, ◌*◌, ◌/◌, ◌%◌, ◌^◌, ◌<◌, ◌≡◌, ◌≢◌, refl, sym, ap, ◌∙◌, arith, inl, inr, Bool,
  true, false, not, ◌&&◌, List, [], ◌∷◌, Option, some, none, ◌==◌, truth, bit_and, bit_xor,
  Bool-cases,
}
use native.Mathlib.Nat.{one-le-pow, pow-suc, div-div-eq-div-mul}
use mikode.Prelude.Bits.{bit, bit-lt, bit_and_pow, bit-bit_xor, bit_and_low, odd_of}
use mikode.Gpio.Calls.{
  System, Port, Answer, pure, ◌>>=◌, ◌>>◌, sys_write, sys_open, sys_close, fail_if,
}
use mikode.Gpio.{direction_path, gpio_write, gpio_direction}
use mikode.Gpio.RunIo.{has_bit, bit_at, write_changed, direct_changed, put_out, put_dir}
use mikode.Gpio.RunIo.Turn.{
  pins_with, differs, to_write, to_direct, level_text, Writes, all_written, written, not_taken,
  Directs, all_directed, directed, not_opened, not_directed, takes,
}

truth_pos : (n : ℕ) → 0 < n → truth n ≡ true
truth_pos zero h = absurd (omega arith)
truth_pos (suc n) h = refl

truth_digit : (b k : ℕ) → b < 2 → truth (b * 2 ^ k) ≡ (b == 1)
truth_digit zero k h = ap truth {x = 0 * 2 ^ k} {y = 0} (omega arith)
truth_digit (suc zero) k h = truth_pos (1 * 2 ^ k) (omega (arith, one-le-pow k 2 (omega arith)))
truth_digit (suc (suc b)) k h = absurd (omega arith)

has_bit-digit : (val i : ℕ) → has_bit val i ≡ (bit i val == 1)
has_bit-digit val i =
    ap (λ t. truth (bit_and val t)) {x = 1 * 2 ^ i} {y = 2 ^ i} (omega arith)
    ∙ ap truth (bit_and_pow i val)
    ∙ truth_digit (bit i val) i (bit-lt i val)

halved : (k x : ℕ) {d : ℕ} → d ≡ k * 2 → x / 2 / k ≡ x / d
halved k x e = div-div-eq-div-mul x 2 k ∙ ap (λ (t : ℕ). x / t) (omega (arith, e))

bit_div : (i x : ℕ) → bit i x ≡ x / 2 ^ i % 2
unfolding bit
bit_div zero x = omega arith
bit_div (suc i) x = bit_div i (x / 2) ∙ ap (λ t. t % 2) (halved (2 ^ i) x (pow-suc 2 i))

bit_at-digit : (val i : ℕ) → bit_at val i ≡ bit i val
bit_at-digit val i = bit_and_low 1 (val / 2 ^ i) ∙ sym (bit_div i val)

odd_digits : (x y : ℕ) → x < 2 → y < 2 → (odd_of x y == 1) ≡ not (x == y)
odd_digits zero zero p q = refl
odd_digits zero (suc zero) p q = refl
odd_digits (suc zero) zero p q = refl
odd_digits (suc zero) (suc zero) p q = refl
odd_digits zero (suc (suc y)) p q = absurd (omega arith)
odd_digits (suc zero) (suc (suc y)) p q = absurd (omega arith)
odd_digits (suc (suc x)) y p q = absurd (omega arith)

xor_digit : (a b i : ℕ) → has_bit (bit_xor a b) i ≡ differs a b i
xor_digit a b i =
    has_bit-digit (bit_xor a b) i
    ∙ ap (λ t. t == 1) (bit-bit_xor i a b)
    ∙ odd_digits (bit i a) (bit i b) (bit-lt i a) (bit-lt i b)

none_with : (p : ℕ → Bool) → ((i : ℕ) → p i ≡ false) → (left i : ℕ) → pins_with p left i ≡ []
unfolding pins_with
none_with p h zero i = refl
none_with p h (suc left) i = rw (h i) (none_with p h left (i + 1))

same_digit : (i new old : ℕ) → (new == old) ≡ true → differs new old i ≡ false
same_digit i new old same = let e : new ≡ old = ground arith in rw e (ground arith)

unchanged : (i new old : ℕ) → (new == old) ≡ true → (b : Bool) → (differs new old i && b) ≡ false
unchanged i new old same b = rw (same_digit i new old same) refl

module _ (os : System) (new : ℕ) where
  -- One level, by what its `write` answers.
  one_level :
      (i : ℕ) (pins : List ℕ) (p : Port) (a : Option ℕ)
      → os.written p.calls (p.gpio_fds i) (level_text (bit i new)) ≡ a
      → (rest : Port → Answer (Unit {0}) × Port) → ((q : Port) → Writes os new pins q (rest q))
      → Writes os new (i ∷ pins) p ((gpio_write os i (bit i new) >> rest) p)
  unfolding gpio_write sys_write ◌>>=◌ fail_if
  one_level i pins p none h rest later = rw h (not_taken λ e. cc)
  one_level i pins p (some n) h rest later = elim (Bool-cases (n == 1)) [
    | inl one ↦ rw (h, one) (written (h ∙ ap some (ground arith)) (later _))
    | inr other ↦ rw (h, other) (not_taken λ e. some_other n other (sym h ∙ e))
  ]
    where
      some_other : (n : ℕ) → (n == 1) ≡ false → some n ≢ some 1
      some_other n h e = grind arith

  write_changed-Writes :
      (dir old left i : ℕ) (p : Port)
      → Writes os new
          (pins_with (λ i. differs new old i && bit i dir == 1) left i)
          p
          (write_changed os left i (bit_xor new old) dir new p)
  unfolding write_changed pins_with pure
  write_changed-Writes dir old zero i p = all_written
  write_changed-Writes dir old (suc left) i p =
      let rest = write_changed-Writes dir old left (i + 1) in
      rw (xor_digit new old i, has_bit-digit dir i, bit_at-digit new i)
        (elim (Bool-cases (differs new old i && bit i dir == 1)) [
          | inl wanted ↦ rw wanted (one_level i _ p _ refl _ rest)
          | inr spared ↦ rw spared (rest p)
        ])

  pub put_out-Writes :
      (dir old : ℕ) (p : Port) → Writes os new (to_write dir new old) p (put_out os dir new old p)
  unfolding put_out pure
  put_out-Writes dir old p = elim (Bool-cases (new == old)) [
    | inl same ↦
        rw (same, none_with _ (λ i. unchanged i new old same (bit i dir == 1)) 8 0) all_written
    | inr other ↦ rw other (write_changed-Writes dir old 8 0 p)
  ]

  -- One direction, by what its `open` and its `write` answer.
  opened_direction :
      (i fd : ℕ) (pins : List ℕ) (p : Port) (rest : Port → Answer (Unit {0}) × Port)
      → ((q : Port) → Directs os new pins q (rest q))
      → os.opened p.calls (direction_path (p.pin_map i)) ≡ some fd
      → (b : Option ℕ) → takes os new i fd p ≡ b
      → Directs os new (i ∷ pins) p ((gpio_direction os i (bit i new) >> rest) p)
  unfolding gpio_direction sys_open sys_write sys_close ◌>>=◌ fail_if
  opened_direction i fd pins p rest later h none k = rw (h, k) (not_directed h k)
  opened_direction i fd pins p rest later h (some n) k = rw (h, k) (directed h (λ e. cc) (later _))

  one_direction :
      (i : ℕ) (pins : List ℕ) (p : Port) (rest : Port → Answer (Unit {0}) × Port)
      → ((q : Port) → Directs os new pins q (rest q))
      → (a : Option ℕ) → os.opened p.calls (direction_path (p.pin_map i)) ≡ a
      → Directs os new (i ∷ pins) p ((gpio_direction os i (bit i new) >> rest) p)
  unfolding gpio_direction sys_open ◌>>=◌ fail_if
  one_direction i pins p rest later none h = rw h (not_opened h)
  one_direction i pins p rest later (some fd) h =
      opened_direction i fd pins p rest later h (takes os new i fd p) refl

  direct_changed-Directs :
      (old left i : ℕ) (p : Port)
      → Directs os new
          (pins_with (differs new old) left i)
          p
          (direct_changed os left i (bit_xor new old) new p)
  unfolding direct_changed pins_with pure
  direct_changed-Directs old zero i p = all_directed
  direct_changed-Directs old (suc left) i p =
      let rest = direct_changed-Directs old left (i + 1) in
      rw (xor_digit new old i, bit_at-digit new i)
        (elim (Bool-cases (differs new old i)) [
          | inl wanted ↦ rw wanted (one_direction i _ p _ rest _ refl)
          | inr spared ↦ rw spared (rest p)
        ])

  pub put_dir-Directs :
      (old : ℕ) (p : Port) → Directs os new (to_direct new old) p (put_dir os new old p)
  unfolding put_dir pure
  put_dir-Directs old p = elim (Bool-cases (new == old)) [
    | inl same ↦ rw (same, none_with _ (λ i. same_digit i new old same) 8 0) all_directed
    | inr other ↦ rw other (direct_changed-Directs old 8 0 p)
  ]
