-- ===== src/Machine/Status.antt =====
-- The flag computations of src/run_misc.c.
pub mod Laws
use mikode.Prelude.{ℕ, ◌+◌, false, if◌then◌else◌, bit_and, bit_or, bit_xor}
use mikode.Prelude.{u8, not32, ◌>>◌, ◌==◌, ltb, truth}
use mikode.Machine.{Machine, put_flag, set_flag, flag_c, flag_z, flag_n, flag_v, flag_s}

-- `(state->sreg & N) ^ ((state->sreg & V) >> 1)` decides S.
unfoldable pub sign_flag : Machine → Machine
sign_flag m =
    set_flag (truth (bit_xor (bit_and m.sreg flag_n) (bit_and m.sreg flag_v >> 1))) flag_s m

unfoldable pub check_zsnf : ℕ → Machine → Machine
check_zsnf r m =
    let m₁ = set_flag (r == 0) flag_z m in
    let m₂ = set_flag (truth (bit_and r 0x80)) flag_n m₁ in sign_flag m₂

unfoldable pub check_cv : ℕ → ℕ → ℕ → Machine → Machine
check_cv result a b m =
    let m₁ = set_flag (truth (bit_and result 0x0100)) flag_c m in
    let over =
      bit_or (bit_and (bit_and a b) (not32 result))
        (bit_and (bit_and (not32 a) (not32 b)) result) in
    set_flag (truth (bit_and over 0x80)) flag_v m₁

unfoldable pub check_subf : ℕ → ℕ → ℕ → Machine → Machine
check_subf result a b m =
    let over =
      bit_or (bit_and (bit_and a (not32 b)) (not32 (u8 result)))
        (bit_and (bit_and (not32 a) b) (u8 result)) in
    let m₁ = set_flag (truth (bit_and over 0x80)) flag_v m in
    let m₂ = record m₁ { sreg = if truth result then put_flag false flag_z m₁.sreg else m₁.sreg } in
    let m₃ = set_flag (truth (bit_and result 0x80)) flag_n m₂ in
    let m₄ = sign_flag m₃ in set_flag (ltb a (b + bit_and m₄.sreg 0x01)) flag_c m₄
