-- ===== src/Handlers/Logic/Laws.antt =====
-- What the bitwise operations of src/execute.c leave in the registers and the flags.
use mikode.Prelude.{
  ℕ, ◌+◌, ◌/◌, ◌%◌, ◌<◌, ◌≡◌, refl, ap, arith, false, ◌==◌, bit_and, bit_or, bit_xor,
}
use mikode.Prelude.Bits.{bit_seven, bit_and-lt, bit_or-lt, bit_xor-lt}
use mikode.Machine.{Machine, update, set_reg, set_flag, flag_v, advance}
use mikode.Machine.Flags.{status, digit, put_flag-lt, status-put_v}
use mikode.Machine.Valid.{IsValid}
use mikode.Machine.Status.{check_zsnf, sign_flag}
use mikode.Machine.Status.Laws.{status-check_zsnf}
use mikode.Handlers.Fields.{field_r, field_d, imm_byte}
use mikode.Handlers.Valid.Alu.{imm_byte-lt}
use mikode.Handlers.Logic.{put_logic, and, andi, eor, or, ori}

-- `m'` is `m` after the byte `v` was put in register `d` by a bitwise operation: V is clear, Z
-- says that the byte is 0, and N and S are its top bit.
pub record IsLogic (d v : ℕ) (m m' : Machine) : Type 0 where
  pub registers : m'.reg ≡ update m.reg d v
  pub flags :
      status m'.sreg
      ≡ record (status m.sreg) { z = digit (v == 0); n = v / 128; v = 0; s = v / 128 }
  pub next : m'.ip ≡ (m.ip + 2) % 65536
  pub stack : m'.sp ≡ m.sp
  pub memory : m'.prog ≡ m.prog

update_self : (f : ℕ → ℕ) (d v : ℕ) → update f d v d ≡ v
update_self f d v = ground arith

put_logic-flags :
    (d v : ℕ) (m : Machine)
    → v < 256
    → m.sreg < 256
    → status (put_logic d v m).sreg
      ≡ record (status m.sreg) { z = digit (v == 0); n = v / 128; v = 0; s = v / 128 }
unfolding put_logic
put_logic-flags d v m hv h =
    let m₁ = set_flag false flag_v (set_reg d v m) in
    let cleared = status-put_v false m.sreg h in
    ground (
      arith,
      status-check_zsnf (m₁.reg d) m₁ (put_flag-lt _ _ _),
      update_self m.reg d v,
      cleared,
      ap (λ w. w.v) cleared,
      bit_seven v,
    )

put_logic-registers : (d v : ℕ) (m : Machine) → (put_logic d v m).reg ≡ update m.reg d v
unfolding put_logic check_zsnf sign_flag
put_logic-registers d v m = refl

put_logic-ip : (d v : ℕ) (m : Machine) → (put_logic d v m).ip ≡ m.ip
unfolding put_logic check_zsnf sign_flag
put_logic-ip d v m = refl

put_logic-sp : (d v : ℕ) (m : Machine) → (put_logic d v m).sp ≡ m.sp
unfolding put_logic check_zsnf sign_flag
put_logic-sp d v m = refl

put_logic-prog : (d v : ℕ) (m : Machine) → (put_logic d v m).prog ≡ m.prog
unfolding put_logic check_zsnf sign_flag
put_logic-prog d v m = refl

put_logic-IsLogic :
    (d v : ℕ) (m : Machine) → v < 256 → m.sreg < 256 → IsLogic d v m (advance 2 (put_logic d v m))
put_logic-IsLogic d v m hv h = record {
  registers = put_logic-registers d v m;
  flags = put_logic-flags d v m hv h;
  next = ap (λ (t : ℕ). (t + 2) % 65536) (put_logic-ip d v m);
  stack = put_logic-sp d v m;
  memory = put_logic-prog d v m;
}

module _ (op : ℕ) (m : Machine) (valid : IsValid m) where
  open valid use {reg_fits, sreg_fits}

  -- `and`, `or` and `eor` put the bitwise operation of their registers in the first, `andi` and
  -- `ori` that of their register and the byte in the opcode, each with the flags of `IsLogic`, and
  -- change nothing else.
  pub and-IsLogic :
      let d = field_d op in
      let a = m.reg d in
      let b = m.reg (field_r op) in
      IsLogic d (bit_and a b) m (and op m).1
      × IsLogic d (bit_or a b) m (or op m).1
      × IsLogic d (bit_xor a b) m (eor op m).1
      × IsLogic d (bit_and a (imm_byte op)) m (andi op m).1
      × IsLogic d (bit_or a (imm_byte op)) m (ori op m).1
  unfolding and or eor andi ori
  and-IsLogic =
      let d = field_d op in
      let a = m.reg d in
      let b = m.reg (field_r op) in
      let k = imm_byte op in
      (
        put_logic-IsLogic d (bit_and a b) m (bit_and-lt 8 a b (reg_fits d)) sreg_fits,
        put_logic-IsLogic d (bit_or a b) m (bit_or-lt 8 a b (reg_fits d) (reg_fits _)) sreg_fits,
        put_logic-IsLogic d (bit_xor a b) m (bit_xor-lt 8 a b (reg_fits d) (reg_fits _)) sreg_fits,
        put_logic-IsLogic d (bit_and a k) m (bit_and-lt 8 a k (reg_fits d)) sreg_fits,
        put_logic-IsLogic d (bit_or a k) m (bit_or-lt 8 a k (reg_fits d) (imm_byte-lt op))
            sreg_fits,
      )
