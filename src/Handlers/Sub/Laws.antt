-- ===== src/Handlers/Sub/Laws.antt =====
-- What the subtractions and comparisons of src/execute.c compute.
use mikode.Prelude.{ℕ, ◌+◌, ◌-◌, ◌/◌, ◌%◌, ◌<◌, ◌≡◌, refl, ap, ◌∙◌, arith, ◌&&◌, not}
use mikode.Prelude.{bit_and, ◌==◌, if◌then◌else◌, ltb, leb, u8, sub16}
use mikode.Prelude.Bits.{bit, bit-lt, bit_and_pow, bit_seven, bit_eight, odd_of}
use mikode.Machine.{Machine, update, flag_c, advance}
use mikode.Machine.Flags.{Status, status, digit}
use mikode.Machine.Valid.{IsValid}
use mikode.Machine.Status.{check_cv, check_subf, check_zsnf, sign_flag}
use mikode.Machine.Status.Laws.{status-check_cv, status-check_zsnf, status-check_subf, check_cv-lt}
use mikode.Machine.Status.Laws.{add_overflow, sub_overflow}
use mikode.Handlers.Fields.{field_r, field_d, imm_byte}
use mikode.Handlers.Sub.{compare_with, cp, cpc, cpi, sub_with}
use mikode.Handlers.Valid.Alu.{imm_byte-lt}
use mikode.Handlers.Add.Laws.{biased}

-- The byte difference `a - b - c`, modulo 256.
abbrev pub less : ℕ → ℕ → ℕ → ℕ
less a b c = (a + 512 - (b + c)) % 256

-- The flags of a comparison: C the borrow, Z a zero byte, N its top bit; V is what `check_cv`
-- computes, the overflow of the sum `b + r`, and S = N xor V.
abbrev pub compare_flags : ℕ → ℕ → ℕ → Status → Status
compare_flags a b c w =
    let r = less a b c in
    let over = digit (add_overflow a b r) in
    record w {
      c = digit (ltb a (b + c));
      z = digit (r == 0);
      n = r / 128;
      v = over;
      s = odd_of (r / 128) over;
    }

pub compare_with-flags :
    (a b c : ℕ) (m : Machine)
    → IsValid m
    → a < 256
    → b < 256
    → c < 2
    → status (compare_with a b c m).sreg ≡ compare_flags a b c (status m.sreg)
unfolding compare_with
compare_with-flags a b c m valid ha hb hc =
    let result = sub16 a (b + c) in
    let m₁ = check_cv result a b m in
    ground (
      arith,
      status-check_zsnf (u8 result) m₁ (check_cv-lt result a b m),
      status-check_cv result a b (omega arith) ha hb m valid.sreg_fits,
      bit_eight result,
      bit_seven result,
      bit_seven (u8 result),
      bit_seven (less a b c),
    )

-- `m'` is `m` after a comparison of `a` with `b` and a borrow `c`: only flags have changed.
pub record IsCompared (a b c : ℕ) (m m' : Machine) : Type 0 where
  pub registers : m'.reg ≡ m.reg
  pub flags : status m'.sreg ≡ compare_flags a b c (status m.sreg)
  pub next : m'.ip ≡ (m.ip + 2) % 65536
  pub stack : m'.sp ≡ m.sp
  pub memory : m'.prog ≡ m.prog

compare_with-IsCompared :
    (a b c : ℕ) (m : Machine)
    → IsValid m
    → a < 256
    → b < 256
    → c < 2
    → IsCompared a b c m (advance 2 (compare_with a b c m))
unfolding compare_with check_cv check_zsnf sign_flag
compare_with-IsCompared a b c m valid ha hb hc = record {
  registers = refl;
  flags = compare_with-flags a b c m valid ha hb hc;
  next = refl;
  stack = refl;
  memory = refl;
}

module _ (op : ℕ) (m : Machine) (valid : IsValid m) where
  open valid use {reg_fits}

  -- `cp` compares its two registers and changes nothing but flags.
  pub cp-IsCompared : IsCompared (m.reg (field_d op)) (m.reg (field_r op)) 0 m (cp op m).1
  unfolding cp
  cp-IsCompared = compare_with-IsCompared _ _ 0 m valid (reg_fits _) (reg_fits _) (omega arith)

  -- `cpc` compares them with the old carry as a borrow.
  pub cpc-IsCompared :
      IsCompared (m.reg (field_d op)) (m.reg (field_r op)) (status m.sreg).c m (cpc op m).1
  unfolding cpc
  cpc-IsCompared = rw carry (
      compare_with-IsCompared _ _ (bit 0 m.sreg) m valid (reg_fits _) (reg_fits _)
        (bit-lt 0 m.sreg))
    where
      carry : bit_and m.sreg flag_c ≡ bit 0 m.sreg
      carry = omega (arith, bit_and_pow 0 m.sreg)

  -- `cpi` compares a register with the byte in the opcode.
  pub cpi-IsCompared : IsCompared (m.reg (field_d op)) (imm_byte op) 0 m (cpi op m).1
  unfolding cpi
  cpi-IsCompared = compare_with-IsCompared _ _ 0 m valid (reg_fits _) (imm_byte-lt op) (omega arith)

sign_of_less :
    (a b : ℕ)
    → a < 256
    → b < 256
    → a / 128 ≡ b / 128
    → let r = less a b 0 in odd_of (r / 128) (digit (add_overflow a b r)) ≡ a / 128
sign_of_less a b ha hb same = ground (arith, bit_seven a, bit_seven b, bit_seven (less a b 0))

-- After `cp` of two bytes whose sign bits agree, S is that sign bit, whichever byte is the less:
-- it is clear for two non-negative bytes and set for two negative ones.
pub cp-same_sign :
    (op : ℕ) (m : Machine)
    → IsValid m
    → m.reg (field_d op) / 128 ≡ m.reg (field_r op) / 128
    → (status (cp op m).1.sreg).s ≡ m.reg (field_d op) / 128
cp-same_sign op m valid same =
    ap (λ w. w.s) (cp-IsCompared op m valid).flags
    ∙ sign_of_less _ _ (valid.reg_fits _) (valid.reg_fits _) same

sub_overflow_lem :
    (a b c : ℕ)
    → a < 256
    → b < 256
    → c < 2
    → sub_overflow a b (less a b c)
      ≡ not (leb (biased b + c) (biased a + 128) && leb (biased a) (biased b + c + 127))
sub_overflow_lem a b c ha hb hc =
    rw (bit_seven a, bit_seven b, bit_seven (less a b c)) (ground arith)

-- The flags of a difference `a - b - c`: V a signed difference outside [-128, 127], N the top bit,
-- S = N xor V. Z is kept by a zero byte without a borrow and else cleared. C is the borrow
-- of `a - b` less the OLD carry, whatever `c` is.
abbrev pub difference_flags : ℕ → ℕ → ℕ → Status → Status
difference_flags a b c w =
    let r = less a b c in
    let low = leb (biased b + c) (biased a + 128) in
    let over = digit (not (low && leb (biased a) (biased b + c + 127))) in
    record w {
      c = digit (ltb a (b + w.c));
      z = if a == b + c then w.z else 0;
      n = r / 128;
      v = over;
      s = odd_of (r / 128) over;
    }

-- `m'` is `m` after the byte difference `a - b - c` was put in register `d`.
pub record IsDifference (d a b c : ℕ) (m m' : Machine) : Type 0 where
  pub registers : m'.reg ≡ update m.reg d (less a b c)
  pub flags : status m'.sreg ≡ difference_flags a b c (status m.sreg)
  pub next : m'.ip ≡ (m.ip + 2) % 65536
  pub stack : m'.sp ≡ m.sp
  pub memory : m'.prog ≡ m.prog

module _ (d b c : ℕ) (m : Machine) (valid : IsValid m) (hb : b < 256) (hc : c < 2) where
  sub_with-flags : status (sub_with d b c m).sreg ≡ difference_flags (m.reg d) b c (status m.sreg)
  unfolding sub_with
  sub_with-flags =
      let a = m.reg d in
      let result = sub16 a (b + c) in
      let ha : m.reg d < 256 = valid.reg_fits d in
      let same : u8 result ≡ less a b c = omega arith in
      ground (
        arith,
        same,
        status-check_subf result a b m (omega arith) ha hb valid.sreg_fits,
        sub_overflow_lem a b c ha hb hc,
        bit_seven result,
      )

  pub sub_with-IsDifference : IsDifference d (m.reg d) b c m (advance 2 (sub_with d b c m))
  unfolding sub_with check_subf sign_flag
  sub_with-IsDifference = record {
    registers = ap (update m.reg d) (omega (arith, valid.reg_fits d));
    flags = sub_with-flags;
    next = refl;
    stack = refl;
    memory = refl;
  }
