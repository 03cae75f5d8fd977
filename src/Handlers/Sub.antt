-- ===== src/Handlers/Sub.antt =====
-- Subtractions, comparisons, decrement and negation of src/execute.c.
pub mod Laws
pub mod Difference
use mikode.Prelude.{ℕ, ◌+◌, not, if◌then◌else◌, bit_and}
use mikode.Prelude.{u8, sub8, sub16, not32, ◌==◌, truth}
use mikode.Machine.{Machine, Reply, ret0, set_reg, set_flag, advance, flag_c, flag_z, flag_v}
use mikode.Machine.Status.{check_cv, check_subf, check_zsnf}
use mikode.Machine.Memory.{check_32}
use mikode.Handlers.Fields.{field_r, field_d, field_pair, imm_byte, imm_word}
use mikode.Handlers.Add.{clear_z_if_low}

-- The flags of a comparison of `a` with `b` and a borrow.
unfoldable pub compare_with : ℕ → ℕ → ℕ → Machine → Machine
compare_with a b c m =
    let result = sub16 a (b + c) in check_zsnf (u8 result) (check_cv result a b m)

unfoldable pub cp : ℕ → Machine → Reply
unfolding compare_with
cp op m = ret0 (advance 2 (compare_with (m.reg (field_d op)) (m.reg (field_r op)) 0 m))

unfoldable pub cpc : ℕ → Machine → Reply
unfolding compare_with
cpc op m =
    let c = bit_and m.sreg flag_c in
    ret0 (advance 2 (compare_with (m.reg (field_d op)) (m.reg (field_r op)) c m))

unfoldable pub cpi : ℕ → Machine → Reply
unfolding compare_with
cpi op m = ret0 (advance 2 (compare_with (m.reg (field_d op)) (imm_byte op) 0 m))

unfoldable pub cpse : ℕ → Machine → Reply
unfolding cp
cpse op m =
    let m₁ = (cp op m).1 in
    if not (truth (bit_and m₁.sreg flag_z))
    then ret0 m₁
    else let m₂ = if check_32 m₁ then advance 2 m₁ else m₁ in ret0 (advance 2 m₂)

-- `check_subf` and the store of a difference of register `d`, a value and a borrow
unfoldable pub sub_with : ℕ → ℕ → ℕ → Machine → Machine
sub_with d b c m =
    let result = sub16 (m.reg d) (b + c) in
    let m₁ = check_subf result (m.reg d) b m in set_reg d (u8 result) m₁

unfoldable pub sub : ℕ → Machine → Reply
unfolding sub_with
sub op m = ret0 (advance 2 (sub_with (field_d op) (m.reg (field_r op)) 0 m))

unfoldable pub subi : ℕ → Machine → Reply
unfolding sub_with
subi op m = ret0 (advance 2 (sub_with (field_d op) (imm_byte op) 0 m))

unfoldable pub sbc : ℕ → Machine → Reply
unfolding sub_with
sbc op m = ret0 (advance 2 (sub_with (field_d op) (m.reg (field_r op)) (bit_and m.sreg flag_c) m))

unfoldable pub sbci : ℕ → Machine → Reply
unfolding sub_with
sbci op m = ret0 (advance 2 (sub_with (field_d op) (imm_byte op) (bit_and m.sreg flag_c) m))

unfoldable pub sbiw : ℕ → Machine → Reply
unfolding clear_z_if_low
sbiw op m =
    let rg = field_pair op in
    let val = imm_word op in
    let low = sub16 (m.reg rg) val in
    let c = if truth (bit_and low 0x0100) then 1 else 0 in
    let m₁ = set_reg rg (u8 low) m in
    let high = sub16 (m₁.reg (rg + 1)) c in
    let m₂ = check_subf high (m₁.reg (rg + 1)) c m₁ in
    let m₃ = set_reg (rg + 1) (u8 high) m₂ in ret0 (advance 2 (clear_z_if_low rg m₃))

unfoldable pub dec : ℕ → Machine → Reply
dec op m =
    let d = field_d op in
    let m₁ = set_flag (m.reg d == 0x80) flag_v m in
    let m₂ = set_reg d (sub8 (m₁.reg d) 1) m₁ in ret0 (advance 2 (check_zsnf (m₂.reg d) m₂))

unfoldable pub neg : ℕ → Machine → Reply
neg op m =
    let d = field_d op in
    let m₁ = if m.reg d == 0x80 then m else set_reg d (u8 (not32 (m.reg d) + 1)) m in
    let m₂ = set_flag (m₁.reg d == 0x80) flag_v m₁ in
    let m₃ = set_flag (not (m₂.reg d == 0)) flag_c m₂ in ret0 (advance 2 (check_zsnf (m₃.reg d) m₃))
