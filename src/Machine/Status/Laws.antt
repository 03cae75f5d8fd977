-- ===== src/Machine/Status/Laws.antt =====
-- What the flag computations of src/run_misc.c leave in each flag.
use mikode.Prelude.{
  ℕ, zero, suc, ◌+◌, ◌-◌, ◌<◌, ◌≡◌, refl, ◌∙◌, arith, Bool, true, false, ◌&&◌, not,
}
use mikode.Prelude.{bit_and, bit_or, bit_xor, all_below, all_below_sound, ==_iff}
use mikode.Prelude.{if◌then◌else◌, ◌==◌, ltb, truth, u8, not32, ◌>>◌}
use mikode.Prelude.Bits.{bit, bit-lt, bit-bit_and, bit-bit_or, bit-complement, bit_and_pow, odd_of}
use mikode.Machine.{Machine, put_flag, flag_c, flag_z, flag_n, flag_v}
use mikode.Machine.Flags.{status, digit, put_flag-lt, truth-bit_and_pow, digit_of_bit}
use mikode.Machine.Flags.{status-put_c, status-put_z, status-put_n, status-put_v, status-put_s}
use mikode.Machine.Status.{sign_flag, check_zsnf, check_cv, check_subf}

abbrev sign_test : ℕ → ℕ
sign_test w = digit (truth (bit_xor (bit_and w flag_n) (bit_and w flag_v >> 1)))

sign_table : all_below 256 (λ w. sign_test w == odd_of (bit 2 w) (bit 3 w)) ≡ true
unfolding all_below bit
sign_table = refl

sign_test_lem : (w : ℕ) → w < 256 → sign_test w ≡ odd_of (bit 2 w) (bit 3 w)
sign_test_lem w h = (==_iff _ _).0 (all_below_sound 256 _ sign_table w h)

pub status-sign_flag :
    (m : Machine)
    → m.sreg < 256
    → status (sign_flag m).sreg
      ≡ record (status m.sreg) { s = odd_of (bit 2 m.sreg) (bit 3 m.sreg) }
unfolding sign_flag
status-sign_flag m h = rw (status-put_s _ m.sreg h, sign_test_lem m.sreg h)

-- After `check_zsnf r`, Z says that `r` is 0, N is its top bit and S is N xor V.
pub status-check_zsnf :
    (r : ℕ) (m : Machine)
    → m.sreg < 256
    → status (check_zsnf r m).sreg ≡ record (status m.sreg) {
      z = digit (r == 0);
      n = bit 7 r;
      s = odd_of (bit 7 r) (bit 3 m.sreg);
    }
unfolding check_zsnf
status-check_zsnf r m h =
    let w₁ = put_flag (r == 0) flag_z m.sreg in
    let w₂ = put_flag (truth (bit_and r 0x80)) flag_n w₁ in
    ground (
      arith,
      status-sign_flag (record m { sreg = w₂ }) (put_flag-lt _ _ _),
      status-put_n (truth (bit_and r 0x80)) w₁ (put_flag-lt _ _ _),
      status-put_z (r == 0) m.sreg h,
      truth-bit_and_pow 7 r,
      digit_of_bit 7 r,
    )

-- The sign bits of an addition that overflows, and of a subtraction that does.
abbrev pub add_overflow : ℕ → ℕ → ℕ → Bool
add_overflow a b r = bit 7 a == bit 7 b && not (bit 7 b == bit 7 r)

abbrev pub sub_overflow : ℕ → ℕ → ℕ → Bool
sub_overflow a b r = not (bit 7 a == bit 7 b) && bit 7 b == bit 7 r

abbrev cv_mask : ℕ → ℕ → ℕ → ℕ
cv_mask result a b =
    bit_or (bit_and (bit_and a b) (not32 result)) (bit_and (bit_and (not32 a) (not32 b)) result)

abbrev subf_mask : ℕ → ℕ → ℕ → ℕ
subf_mask r a b = bit_or (bit_and (bit_and a (not32 b)) (not32 r)) (bit_and (bit_and (not32 a) b) r)

module _ (r a b : ℕ) (hr : r < 65536) (ha : a < 256) (hb : b < 256) where
  flip_r : bit 7 (not32 r) ≡ 1 - bit 7 r
  flip_r = bit-complement 32 7 r (omega arith) (omega arith)

  flip_a : bit 7 (not32 a) ≡ 1 - bit 7 a
  flip_a = bit-complement 32 7 a (omega arith) (omega arith)

  flip_b : bit 7 (not32 b) ≡ 1 - bit 7 b
  flip_b = bit-complement 32 7 b (omega arith) (omega arith)

  cv_digit : digit (truth (bit_and (cv_mask r a b) 0x80)) ≡ digit (add_overflow a b r)
  cv_digit =
      rw
        (
          truth-bit_and_pow 7 (cv_mask r a b),
          bit-bit_or,
          bit-bit_and,
          bit-bit_and,
          bit-bit_and,
          bit-bit_and,
          flip_r,
          flip_a,
          flip_b,
        )
        (ground (arith, bit-lt 7 r, bit-lt 7 a, bit-lt 7 b))

  subf_digit : digit (truth (bit_and (subf_mask r a b) 0x80)) ≡ digit (sub_overflow a b r)
  subf_digit =
      rw
        (
          truth-bit_and_pow 7 (subf_mask r a b),
          bit-bit_or,
          bit-bit_and,
          bit-bit_and,
          bit-bit_and,
          bit-bit_and,
          flip_r,
          flip_a,
          flip_b,
        )
        (ground (arith, bit-lt 7 r, bit-lt 7 a, bit-lt 7 b))

  -- After `check_cv`, C is bit 8 of the result, V is the overflow of a sum, and no other flag
  -- has changed.
  pub status-check_cv :
      (m : Machine)
      → m.sreg < 256
      → status (check_cv r a b m).sreg
        ≡ record (status m.sreg) { c = bit 8 r; v = digit (add_overflow a b r) }
  unfolding check_cv
  status-check_cv m h =
      let w₁ = put_flag (truth (bit_and r 0x0100)) flag_c m.sreg in
      ground (
        arith,
        status-put_v (truth (bit_and (cv_mask r a b) 0x80)) w₁ (put_flag-lt _ _ _),
        status-put_c (truth (bit_and r 0x0100)) m.sreg h,
        truth-bit_and_pow 8 r,
        digit_of_bit 8 r,
        cv_digit,
      )

pub sign_flag-lt : (m : Machine) → (sign_flag m).sreg < 256
unfolding sign_flag
sign_flag-lt m = put_flag-lt _ _ _

pub check_zsnf-lt : (r : ℕ) (m : Machine) → (check_zsnf r m).sreg < 256
unfolding check_zsnf
check_zsnf-lt r m = sign_flag-lt _

pub check_cv-lt : (r a b : ℕ) (m : Machine) → (check_cv r a b m).sreg < 256
unfolding check_cv
check_cv-lt r a b m = put_flag-lt _ _ _

pub check_subf-lt : (r a b : ℕ) (m : Machine) → (check_subf r a b m).sreg < 256
unfolding check_subf
check_subf-lt r a b m = put_flag-lt _ _ _

clear_if : ℕ → ℕ → ℕ
clear_if r w = if truth r then put_flag false flag_z w else w

clear_if-lt : (r w : ℕ) → w < 256 → clear_if r w < 256
unfolding clear_if
clear_if-lt zero w h = h
clear_if-lt (suc r) w h = put_flag-lt _ _ _

status-clear_if :
    (r w : ℕ)
    → w < 256
    → status (clear_if r w) ≡ record (status w) { z = if r == 0 then bit 1 w else 0 }
unfolding clear_if
status-clear_if zero w h = refl
status-clear_if (suc r) w h = status-put_z false w h ∙ ground arith

-- After `check_subf`, V is the overflow of a difference, N the sign of the result, S their
-- exclusive or; Z is cleared by a result other than 0 and otherwise kept; and C says that `b` and
-- the old carry together exceed `a`.
pub status-check_subf :
    (r a b : ℕ) (m : Machine)
    → r < 65536
    → a < 256
    → b < 256
    → m.sreg < 256
    → let over = digit (sub_overflow a b (u8 r)) in
      status (check_subf r a b m).sreg ≡ record (status m.sreg) {
        c = digit (ltb a (b + bit 0 m.sreg));
        z = if r == 0 then bit 1 m.sreg else 0;
        n = bit 7 r;
        v = over;
        s = odd_of (bit 7 r) over;
      }
unfolding check_subf clear_if
status-check_subf r a b m hr ha hb h =
    let w₁ = put_flag (truth (bit_and (subf_mask (u8 r) a b) 0x80)) flag_v m.sreg in
    let w₂ = clear_if r w₁ in
    let w₃ = put_flag (truth (bit_and r 0x80)) flag_n w₂ in
    let m₄ = sign_flag (record m { sreg = w₃ }) in
    let w₂_fits = clear_if-lt r w₁ (put_flag-lt _ _ _) in
    ground (
      arith,
      status-put_c (ltb a (b + bit_and m₄.sreg 0x01)) m₄.sreg (sign_flag-lt _),
      bit_and_pow 0 m₄.sreg,
      status-sign_flag (record m { sreg = w₃ }) (put_flag-lt _ _ _),
      status-put_n (truth (bit_and r 0x80)) w₂ w₂_fits,
      truth-bit_and_pow 7 r,
      digit_of_bit 7 r,
      status-clear_if r w₁ (put_flag-lt _ _ _),
      status-put_v (truth (bit_and (subf_mask (u8 r) a b) 0x80)) m.sreg h,
      subf_digit (u8 r) a b (omega arith) ha hb,
    )
