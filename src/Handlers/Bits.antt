-- ===== src/Handlers/Bits.antt =====
-- Single bits of `sreg` and of registers, of src/execute.c.
use mikode.Prelude.{ℕ, true, false, bit_and}
use mikode.Prelude.{◌<<◌, ◌>>◌, truth}
use mikode.Machine.{Machine, Reply, ret0, set_reg, set_flag, advance, put_flag, flag_t}
use mikode.Handlers.Fields.{field_d, field_bit, field_sreg}

unfoldable pub bclr : ℕ → Machine → Reply
bclr op m = ret0 (advance 2 (set_flag false (1 << field_sreg op) m))

unfoldable pub bset : ℕ → Machine → Reply
bset op m = ret0 (advance 2 (set_flag true (1 << field_sreg op) m))

-- `put_flag` serves here for the register, `reg |= 1 << b` or `reg &= ~(1 << b)`.
unfoldable pub bld : ℕ → Machine → Reply
bld op m =
    let d = field_d op in
    let b = field_bit op in
    let t = bit_and m.sreg 0x40 >> 6 in
    ret0 (advance 2 (set_reg d (put_flag (truth t) (1 << b) (m.reg d)) m))

unfoldable pub bst : ℕ → Machine → Reply
bst op m =
    let set = truth (bit_and (m.reg (field_d op)) (1 << field_bit op)) in
    ret0 (advance 2 (set_flag set flag_t m))

unfoldable pub clrf : ℕ → Machine → Reply
clrf op m = ret0 (advance 2 (record m { sreg = 0 }))

unfoldable pub setf : ℕ → Machine → Reply
setf op m = ret0 (advance 2 (set_flag true (1 << field_sreg op) m))
