-- ===== src/Handlers/Shift.antt =====
-- Shifts and rotations of src/execute.c.
use mikode.Prelude.{ℕ, if◌then◌else◌, false, bit_and, bit_or, bit_xor}
use mikode.Prelude.{u8, ◌<<◌, ◌>>◌, truth}
use mikode.Machine.{Machine, Reply, ret0, set_reg, put_flag, advance, flag_c}
use mikode.Machine.Status.{check_zsnf}
use mikode.Handlers.Fields.{field_d}

-- `if (c) state->sreg |= v; else state->sreg &= ~C;`
unfoldable pub carry_out : ℕ → ℕ → Machine → Machine
carry_out c v m = record m {
  sreg = if truth c then u8 (bit_or m.sreg v) else put_flag false flag_c m.sreg;
}

-- `state->sreg |= ((state->sreg ^ (state->sreg << 2)) & 4) << 1;`
unfoldable pub overflow_out : Machine → Machine
overflow_out m = record m {
  sreg = u8 (bit_or m.sreg (bit_and (bit_xor m.sreg (m.sreg << 2)) 4 << 1));
}

-- What each shift does once the register is stored.
unfoldable pub shift_flags : ℕ → ℕ → ℕ → Machine → Machine
unfolding carry_out overflow_out
shift_flags d c v m = let m₁ = carry_out c v m in overflow_out (check_zsnf (m₁.reg d) m₁)

unfoldable pub asr : ℕ → Machine → Reply
unfolding shift_flags
asr op m =
    let d = field_d op in
    let c = bit_and (m.reg d) 0x01 in
    let s = bit_and (m.reg d) 0x80 in
    ret0 (advance 2 (shift_flags d c c (set_reg d (u8 (bit_or (m.reg d >> 1) s)) m)))

unfoldable pub lsl : ℕ → Machine → Reply
unfolding shift_flags
lsl op m =
    let d = field_d op in
    let c = bit_and (m.reg d) 0x08 in
    ret0 (advance 2 (shift_flags d c (c >> 7) (set_reg d (u8 (m.reg d << 1)) m)))

unfoldable pub lsr : ℕ → Machine → Reply
unfolding shift_flags
lsr op m =
    let d = field_d op in
    let c = bit_and (m.reg d) 0x01 in
    ret0 (advance 2 (shift_flags d c c (set_reg d (u8 (m.reg d >> 1)) m)))

unfoldable pub ror : ℕ → Machine → Reply
unfolding shift_flags
ror op m =
    let d = field_d op in
    let c = bit_and (m.reg d) 0x01 in
    ret0 (advance 2 (shift_flags d c c (set_reg d (u8 (bit_or (m.reg d >> 1) (m.sreg << 7))) m)))
