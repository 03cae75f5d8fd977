-- ===== src/Handlers/Add/Laws.antt =====
-- What the additions of src/execute.c compute, against arithmetic on whole numbers.
use mikode.Prelude.{ℕ, ◌+◌, ◌/◌, ◌%◌, ◌<◌, ◌≡◌, refl, ap, arith, ◌&&◌, not}
use mikode.Prelude.{bit_and, ◌==◌, leb, u8, u16}
use mikode.Prelude.Bits.{bit, bit_seven, bit_eight, bit-lt, bit_and_pow, odd_of}
use mikode.Machine.{Machine, update, set_reg, flag_c, advance}
use mikode.Machine.Flags.{Status, status, digit}
use mikode.Machine.Valid.{IsValid}
use mikode.Machine.Status.{check_cv, check_zsnf, sign_flag}
use mikode.Machine.Status.Laws.{status-check_cv, status-check_zsnf, check_cv-lt, add_overflow}
use mikode.Handlers.Fields.{field_r, field_d}
use mikode.Handlers.Add.{add_with, adc, add}

-- A byte's signed value plus 128.
abbrev pub biased : ℕ → ℕ
biased x = (x + 128) % 256

-- The flags of a sum: C its carry, Z a zero byte, N the top bit, V a signed sum outside
-- [-128, 127], S = N xor V.
abbrev pub sum_flags : ℕ → ℕ → ℕ → Status → Status
sum_flags a b c w =
    let total = a + b + c in
    let spread = biased a + biased b + c in
    let over = digit (not (leb 128 spread && leb spread 383)) in
    record w {
      c = total / 256;
      z = digit (total % 256 == 0);
      n = total % 256 / 128;
      v = over;
      s = odd_of (total % 256 / 128) over;
    }

-- `m'` is `m` after the byte sum `a + b + c` was put in register `d`.
pub record IsSum (d a b c : ℕ) (m m' : Machine) : Type 0 where
  pub registers : m'.reg ≡ update m.reg d ((a + b + c) % 256)
  pub flags : status m'.sreg ≡ sum_flags a b c (status m.sreg)
  pub next : m'.ip ≡ (m.ip + 2) % 65536
  pub stack : m'.sp ≡ m.sp
  pub memory : m'.prog ≡ m.prog

add_overflow_lem :
    (a b c : ℕ)
    → a < 256
    → b < 256
    → c < 2
    → add_overflow a b (a + b + c)
      ≡ not (leb 128 (biased a + biased b + c) && leb (biased a + biased b + c) 383)
add_overflow_lem a b c ha hb hc =
    rw (bit_seven a, bit_seven b, bit_seven (a + b + c)) (ground arith)

update_self : (f : ℕ → ℕ) (d v : ℕ) → update f d v d ≡ v
update_self f d v = ground arith

module _ (d r c : ℕ) (m : Machine) (valid : IsValid m) (hc : c < 2) where
  total : ℕ
  total = m.reg d + m.reg r + c

  total-lt : total < 512
  unfolding total
  total-lt = omega (arith, valid.reg_fits d, valid.reg_fits r)

  add_with-flags : status (add_with d r c m).sreg ≡ sum_flags (m.reg d) (m.reg r) c (status m.sreg)
  unfolding add_with total
  add_with-flags =
      let result = u16 (m.reg d + m.reg r + c) in
      let same : result ≡ m.reg d + m.reg r + c = omega (arith, total-lt) in
      let m₁ = check_cv result (m.reg d) (m.reg r) m in
      let m₂ = set_reg d (u8 result) m₁ in
      ground (
        arith,
        same,
        total-lt,
        status-check_zsnf (m₂.reg d) m₂ (check_cv-lt _ _ _ m),
        update_self m₁.reg d (u8 result),
        status-check_cv result (m.reg d) (m.reg r) (omega arith) (valid.reg_fits d)
            (valid.reg_fits r) m valid.sreg_fits,
        add_overflow_lem (m.reg d) (m.reg r) c (valid.reg_fits d) (valid.reg_fits r) hc,
        bit_eight result,
        bit_seven (m₂.reg d),
      )

  add_with-registers : (add_with d r c m).reg ≡ update m.reg d ((m.reg d + m.reg r + c) % 256)
  unfolding add_with check_cv check_zsnf sign_flag
  add_with-registers = ap (update m.reg d) (omega (arith, total-lt))

  -- `add_with` and the step to the next instruction put the byte sum in its register.
  pub add_with-IsSum : IsSum d (m.reg d) (m.reg r) c m (advance 2 (add_with d r c m))
  unfolding add_with check_cv check_zsnf sign_flag
  add_with-IsSum = record {
    registers = add_with-registers;
    flags = add_with-flags;
    next = refl;
    stack = refl;
    memory = refl;
  }

-- `add` puts the sum of its registers, modulo 256, in the first, with the carry, zero, negative,
-- signed overflow and sign flags of that sum; it changes nothing else and goes to the next word.
pub add-IsSum :
    (op : ℕ) (m : Machine)
    → IsValid m
    → let d = field_d op in IsSum d (m.reg d) (m.reg (field_r op)) 0 m (add op m).1
unfolding add
add-IsSum op m valid = add_with-IsSum (field_d op) (field_r op) 0 m valid (omega arith)

-- `adc` is the same with the old carry added in.
pub adc-IsSum :
    (op : ℕ) (m : Machine)
    → IsValid m
    → let d = field_d op in IsSum d (m.reg d) (m.reg (field_r op)) (status m.sreg).c m (adc op m).1
unfolding adc
adc-IsSum op m valid =
    let carry : bit_and m.sreg flag_c ≡ bit 0 m.sreg = omega (arith, bit_and_pow 0 m.sreg) in
    rw carry (add_with-IsSum (field_d op) (field_r op) (bit 0 m.sreg) m valid (bit-lt 0 m.sreg))
