-- ===== src/Machine/Flags.antt =====
-- What `put_flag` does to each bit of `sreg`, and how the tests of the handlers read a bit.
use mikode.Prelude.{ℕ, zero, suc, ◌*◌, ◌^◌, ◌<◌, ◌≡◌, refl, arith, Bool, true, false}
use mikode.Prelude.{bit_and, all_below, all_below_sound, ==_iff, if◌then◌else◌, ◌==◌, truth}
use mikode.Prelude.Bits.{bit, bit-lt, bit_and_pow}
use mikode.Machine.{put_flag, flag_c, flag_z, flag_n, flag_v, flag_s, flag_t}
use native.Mathlib.Nat.{one-le-pow}

-- The digit that stands for a test.
abbrev pub digit : Bool → ℕ
digit true = 1
digit false = 0

abbrev put_flag_at : Bool → ℕ → ℕ → ℕ → Bool
put_flag_at b k s j = bit j (put_flag b (2 ^ k) s) == (if j == k then digit b else bit j s)

table : Bool → Bool
table b = all_below 8 (λ k. all_below 256 (λ s. all_below 8 (λ j. put_flag_at b k s j)))

table-true : (b : Bool) → table b ≡ true
unfolding table all_below bit put_flag
table-true true = refl
table-true false = refl

-- Putting flag `k` gives bit `k` the value of the test and leaves the other bits.
pub bit-put_flag :
    (b : Bool) (k s j : ℕ)
    → k < 8
    → s < 256
    → j < 8
    → bit j (put_flag b (2 ^ k) s) ≡ (if j == k then digit b else bit j s)
unfolding table
bit-put_flag b k s j hk hs hj =
    let at_k = all_below_sound 8 _ (table-true b) k hk in
    let at_s = all_below_sound 256 _ at_k s hs in
    (==_iff _ _).0 (all_below_sound 8 (put_flag_at b k s) at_s j hj)

pub put_flag-lt : (b : Bool) (f s : ℕ) → put_flag b f s < 256
unfolding put_flag
put_flag-lt b f s = ground arith

truth_pos : (n : ℕ) → 0 < n → truth n ≡ true
truth_pos zero h = absurd (omega arith)
truth_pos (suc n) h = refl

truth_digit : (d p : ℕ) → d < 2 → 0 < p → truth (d * p) ≡ (d == 1)
truth_digit zero p h pos = let e : 0 * p ≡ 0 = omega arith in rw e
truth_digit (suc zero) p h pos = truth_pos (1 * p) (omega arith)
truth_digit (suc (suc d)) p h pos = absurd (omega arith)

-- A test of one digit.
pub truth-bit_and_pow : (k x : ℕ) → truth (bit_and x (2 ^ k)) ≡ (bit k x == 1)
truth-bit_and_pow k x =
    rw bit_and_pow (truth_digit (bit k x) (2 ^ k) (bit-lt k x) (one-le-pow k 2 (omega arith)))

pub digit_of_bit : (k x : ℕ) → digit (bit k x == 1) ≡ bit k x
digit_of_bit k x = ground (arith, bit-lt k x)

-- `sreg` read as its eight flags.
pub record Status : Type 0 where
  pub c : ℕ
  pub z : ℕ
  pub n : ℕ
  pub v : ℕ
  pub s : ℕ
  pub h : ℕ
  pub t : ℕ
  pub i : ℕ

abbrev pub status : ℕ → Status
status w = record {
  c = bit 0 w;
  z = bit 1 w;
  n = bit 2 w;
  v = bit 3 w;
  s = bit 4 w;
  h = bit 5 w;
  t = bit 6 w;
  i = bit 7 w;
}

module _ (b : Bool) (w : ℕ) (h : w < 256) where
  at :
      (k j : ℕ)
      → k < 8
      → j < 8
      → bit j (put_flag b (2 ^ k) w) ≡ (if j == k then digit b else bit j w)
  at k j hk hj = bit-put_flag b k w j hk h hj

  pub status-put_c : status (put_flag b flag_c w) ≡ record (status w) { c = digit b }
  status-put_c = ground (arith, at 0 0, at 0 1, at 0 2, at 0 3, at 0 4, at 0 5, at 0 6, at 0 7)

  pub status-put_z : status (put_flag b flag_z w) ≡ record (status w) { z = digit b }
  status-put_z = ground (arith, at 1 0, at 1 1, at 1 2, at 1 3, at 1 4, at 1 5, at 1 6, at 1 7)

  pub status-put_n : status (put_flag b flag_n w) ≡ record (status w) { n = digit b }
  status-put_n = ground (arith, at 2 0, at 2 1, at 2 2, at 2 3, at 2 4, at 2 5, at 2 6, at 2 7)

  pub status-put_v : status (put_flag b flag_v w) ≡ record (status w) { v = digit b }
  status-put_v = ground (arith, at 3 0, at 3 1, at 3 2, at 3 3, at 3 4, at 3 5, at 3 6, at 3 7)

  pub status-put_s : status (put_flag b flag_s w) ≡ record (status w) { s = digit b }
  status-put_s = ground (arith, at 4 0, at 4 1, at 4 2, at 4 3, at 4 4, at 4 5, at 4 6, at 4 7)

  pub status-put_t : status (put_flag b flag_t w) ≡ record (status w) { t = digit b }
  status-put_t = ground (arith, at 6 0, at 6 1, at 6 2, at 6 3, at 6 4, at 6 5, at 6 6, at 6 7)
