-- ===== src/Handlers/Logic.antt =====
-- Bitwise operations on whole registers, of src/execute.c.
pub mod Laws
use mikode.Prelude.{ℕ, true, false, bit_and, bit_or, bit_xor, u8, u16, not32, ◌<<◌}
use mikode.Machine.{Machine, Reply, ret0, set_reg, set_flag, advance, flag_c, flag_v}
use mikode.Machine.Status.{check_zsnf}
use mikode.Handlers.Fields.{field_r, field_d, imm_byte, imm_word}

-- The store of a result, V cleared, and `check_zsnf`.
unfoldable pub put_logic : ℕ → ℕ → Machine → Machine
put_logic d v m = let m₁ = set_flag false flag_v (set_reg d v m) in check_zsnf (m₁.reg d) m₁

unfoldable pub and : ℕ → Machine → Reply
unfolding put_logic
and op m =
    let d = field_d op in ret0 (advance 2 (put_logic d (bit_and (m.reg d) (m.reg (field_r op))) m))

unfoldable pub andi : ℕ → Machine → Reply
unfolding put_logic
andi op m = let d = field_d op in ret0 (advance 2 (put_logic d (bit_and (m.reg d) (imm_byte op)) m))

unfoldable pub cbr : ℕ → Machine → Reply
unfolding andi
cbr op m = let k = bit_and (u16 (not32 op)) 0x0f0f in ret0 (andi (bit_or (bit_and op 0xf0f0) k) m).1

unfoldable pub com_reg : ℕ → Machine → Reply
com_reg op m =
    let d = field_d op in
    let m₁ = set_reg d (u8 (not32 (m.reg d))) m in
    let m₂ = set_flag false flag_v (set_flag true flag_c m₁) in
    ret0 (advance 2 (check_zsnf (m₂.reg d) m₂))

unfoldable pub eor : ℕ → Machine → Reply
unfolding put_logic
eor op m =
    let d = field_d op in ret0 (advance 2 (put_logic d (bit_xor (m.reg d) (m.reg (field_r op))) m))

unfoldable pub or : ℕ → Machine → Reply
unfolding put_logic
or op m =
    let d = field_d op in ret0 (advance 2 (put_logic d (bit_or (m.reg d) (m.reg (field_r op))) m))

unfoldable pub ori : ℕ → Machine → Reply
unfolding put_logic
ori op m = let d = field_d op in ret0 (advance 2 (put_logic d (bit_or (m.reg d) (imm_byte op)) m))

unfoldable pub sbr : ℕ → Machine → Reply
unfolding put_logic
sbr op m =
    let d = field_d op in ret0 (advance 2 (put_logic d (u8 (bit_or (m.reg d) (imm_word op))) m))

unfoldable pub ser : ℕ → Machine → Reply
ser op m = ret0 (advance 2 (set_reg (field_d op) 0xff m))

unfoldable pub swap : ℕ → Machine → Reply
swap op m =
    let d = field_d op in
    let h = bit_and (m.reg d) 0xf0 in ret0 (advance 2 (set_reg d (u8 (bit_or (m.reg d << 4) h)) m))
