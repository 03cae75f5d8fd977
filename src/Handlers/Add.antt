-- ===== src/Handlers/Add.antt =====
-- Additions, increment and products of src/execute.c.
pub mod Laws
pub mod Pair
pub mod Product
use mikode.Prelude.{ℕ, ◌+◌, ◌*◌, ◌&&◌, if◌then◌else◌, false, bit_and}
use mikode.Prelude.{u8, u16, ◌>>◌, ◌==◌, ltb, truth}
use mikode.Machine.{
  Machine, Reply, ret0, set_reg, put_flag, set_flag, advance, flag_c, flag_z, flag_v,
}
use mikode.Machine.Status.{check_cv, check_zsnf}
use mikode.Handlers.Fields.{field_r, field_d, field_pair, imm_word}

-- `check_cv`, the store and `check_zsnf` of a sum of registers `d` and `r` and a carry
unfoldable pub add_with : ℕ → ℕ → ℕ → Machine → Machine
add_with d r c m =
    let result = u16 (m.reg d + m.reg r + c) in
    let m₁ = check_cv result (m.reg d) (m.reg r) m in
    let m₂ = set_reg d (u8 result) m₁ in check_zsnf (m₂.reg d) m₂

unfoldable pub adc : ℕ → Machine → Reply
unfolding add_with
adc op m = ret0 (advance 2 (add_with (field_d op) (field_r op) (bit_and m.sreg flag_c) m))

unfoldable pub add : ℕ → Machine → Reply
unfolding add_with
add op m = ret0 (advance 2 (add_with (field_d op) (field_r op) 0 m))

-- `if (state->reg[rg] && (state->sreg & Z)) state->sreg &= ~Z;`
unfoldable pub clear_z_if_low : ℕ → Machine → Machine
clear_z_if_low rg m =
    let both = truth (m.reg rg) && truth (bit_and m.sreg flag_z) in
    record m { sreg = if both then put_flag false flag_z m.sreg else m.sreg }

unfoldable pub adiw : ℕ → Machine → Reply
unfolding clear_z_if_low
adiw op m =
    let rg = field_pair op in
    let val = imm_word op in
    let low = u16 (m.reg rg + val) in
    let c = if truth (bit_and low 0x0100) then 1 else 0 in
    let m₁ = set_reg rg (u8 low) m in
    let high = u16 (m₁.reg (rg + 1) + c) in
    let m₂ = check_cv high (m₁.reg (rg + 1)) c m₁ in
    let m₃ = set_reg (rg + 1) (u8 high) m₂ in
    let m₄ = check_zsnf (m₃.reg (rg + 1)) m₃ in ret0 (advance 2 (clear_z_if_low rg m₄))

unfoldable pub inc : ℕ → Machine → Reply
inc op m =
    let d = field_d op in
    let m₁ = set_flag (m.reg d == 0x7f) flag_v m in
    let m₂ = set_reg d (u8 (m₁.reg d + 1)) m₁ in ret0 (advance 2 (check_zsnf (m₂.reg d) m₂))

-- `reg[1]:reg[0] = result`, and the flags of a product
unfoldable pub store_product : ℕ → Machine → Machine
store_product result m =
    let m₁ = set_reg 0 (bit_and result 0x00ff) m in
    let m₂ = set_reg 1 (bit_and result 0xff00 >> 8) m₁ in
    let m₃ = set_flag (truth (bit_and (m₂.reg 1) 0x80)) flag_c m₂ in
    set_flag (m₃.reg 0 == 0 && m₃.reg 1 == 0) flag_z m₃

unfoldable pub mul : ℕ → Machine → Reply
unfolding store_product
mul op m = ret0 (advance 2 (store_product (u16 (m.reg (field_d op) * m.reg (field_r op))) m))

-- `(int8_t) x` promoted to `int`, up to multiples of 2 ^ 16
unfoldable pub sign_extend : ℕ → ℕ
sign_extend x = if ltb x 0x80 then x else x + 0xff00

unfoldable pub muls : ℕ → Machine → Reply
unfolding store_product sign_extend
muls op m =
    let result = u16 (sign_extend (m.reg (field_d op)) * sign_extend (m.reg (field_r op))) in
    ret0 (advance 2 (store_product result m))
