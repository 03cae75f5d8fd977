-- ===== src/Handlers/Sub/Difference.antt =====
-- The four byte subtractions of src/execute.c, and where their carry is right.
use mikode.Prelude.{ℕ, ◌+◌, ◌-◌, ◌*◌, ◌%◌, ◌≡◌, sym, ap, ◌∙◌, arith, ◌⊎◌, ◌↔◌}
use mikode.Prelude.{◌≢◌, bit_and, ltb, ◌==◌, if◌then◌else◌}
use mikode.Prelude.Bits.{bit, bit-lt, bit_and_pow}
use mikode.Machine.{Machine, update, flag_c}
use mikode.Machine.Flags.{status, digit}
use mikode.Machine.Valid.{IsValid}
use mikode.Machine.Memory.Laws.{update_self, update_other}
use mikode.Handlers.Fields.{field_r, field_d, imm_byte}
use mikode.Handlers.Valid.Alu.{imm_byte-lt, sub-IsValid}
use mikode.Handlers.Sub.{sub, subi, sbc, sbci}
use mikode.Handlers.Sub.Laws.{less, IsDifference, sub_with-IsDifference}

module _ (op : ℕ) (m : Machine) (valid : IsValid m) where
  open valid use {reg_fits}

  carry : bit_and m.sreg flag_c ≡ bit 0 m.sreg
  carry = omega (arith, bit_and_pow 0 m.sreg)

  -- `sub` puts the difference of its registers, modulo 256, in the first, with the flags of
  -- `difference_flags`, and changes nothing else.
  pub sub-IsDifference :
      let d = field_d op in IsDifference d (m.reg d) (m.reg (field_r op)) 0 m (sub op m).1
  unfolding sub
  sub-IsDifference =
      sub_with-IsDifference (field_d op) (m.reg (field_r op)) 0 m valid (reg_fits _) (omega arith)

  -- `subi` takes the byte in the opcode.
  pub subi-IsDifference :
      let d = field_d op in IsDifference d (m.reg d) (imm_byte op) 0 m (subi op m).1
  unfolding subi
  subi-IsDifference =
      sub_with-IsDifference (field_d op) (imm_byte op) 0 m valid (imm_byte-lt op) (omega arith)

  -- `sbc` and `sbci` take the old carry as a borrow as well.
  pub sbc-IsDifference :
      let d = field_d op in
      IsDifference d (m.reg d) (m.reg (field_r op)) (status m.sreg).c m (sbc op m).1
  unfolding sbc
  sbc-IsDifference = rw carry (
      sub_with-IsDifference (field_d op) (m.reg (field_r op)) (bit 0 m.sreg) m valid (reg_fits _)
        (bit-lt 0 m.sreg))

  pub sbci-IsDifference :
      let d = field_d op in IsDifference d (m.reg d) (imm_byte op) (status m.sreg).c m (sbci op m).1
  unfolding sbci
  sbci-IsDifference = rw carry (
      sub_with-IsDifference (field_d op) (imm_byte op) (bit 0 m.sreg) m valid (imm_byte-lt op)
        (bit-lt 0 m.sreg))

-- The carry that `sub` leaves is the borrow of its two bytes exactly when the old carry was clear
-- or the bytes differ.
pub sub-carry :
    (op : ℕ) (m : Machine)
    → IsValid m
    → let a = m.reg (field_d op) in
      let b = m.reg (field_r op) in
      ((status (sub op m).1.sreg).c ≡ digit (ltb a b)) ↔ (((status m.sreg).c ≡ 0) ⊎ (a ≢ b))
sub-carry op m valid =
    let flags = (sub-IsDifference op m valid).flags in
    let carry_out : (status (sub op m).1.sreg).c
        ≡ digit (ltb (m.reg (field_d op)) (m.reg (field_r op) + bit 0 m.sreg)) =
      ap (λ w. w.c) flags in
    ground (arith, carry_out, bit-lt 0 m.sreg)

-- Z is set after `sub` exactly when it was set before and the bytes are equal; so `sub` never sets
-- it.
pub sub-zero :
    (op : ℕ) (m : Machine)
    → IsValid m
    → ((status (sub op m).1.sreg).z ≡ 1)
      ↔ (((status m.sreg).z ≡ 1) × (m.reg (field_d op) ≡ m.reg (field_r op)))
sub-zero op m valid =
    let flags = (sub-IsDifference op m valid).flags in
    let zero_out : (status (sub op m).1.sreg).z
        ≡ (if m.reg (field_d op) == m.reg (field_r op) + 0 then (status m.sreg).z else 0) =
      ap (λ w. w.z) flags in
    ground (arith, zero_out)

reg_at :
    {d a b c : ℕ} {m m' : Machine}
    → IsDifference d a b c m m'
    → (i : ℕ) → m'.reg i ≡ update m.reg d (less a b c) i
reg_at h i = ap (λ f. f i) h.registers

-- `sub` on the low bytes and `sbc` on the high ones leave the difference of two 16-bit numbers,
-- modulo 2 ^ 16, and its borrow in C, if the carry was clear before and the first instruction
-- does not write an operand of the second.
pub sub-sbc-pair :
    (lo hi : ℕ) (m : Machine)
    → IsValid m
    → (status m.sreg).c ≡ 0
    → field_d lo ≢ field_d hi
    → field_d lo ≢ field_r hi
    → let a = m.reg (field_d hi) * 256 + m.reg (field_d lo) in
      let b = m.reg (field_r hi) * 256 + m.reg (field_r lo) in
      let m' = (sbc hi (sub lo m).1).1 in
      (m'.reg (field_d hi) * 256 + m'.reg (field_d lo) ≡ (a + 65536 - b) % 65536)
      × ((status m'.sreg).c ≡ digit (ltb a b))
sub-sbc-pair lo hi m valid clear apart safe =
    let first = sub-IsDifference lo m valid in
    let m₁ = (sub lo m).1 in
    let second = sbc-IsDifference hi m₁ (sub-IsValid lo valid) in
    let low = reg_at first (field_d lo) ∙ update_self m.reg (field_d lo) _ in
    let high = reg_at first (field_d hi) ∙ update_other m.reg (field_d lo) _ _ apart in
    let taken = reg_at first (field_r hi) ∙ update_other m.reg (field_d lo) _ _ safe in
    let carry₁ = ap (λ w. w.c) first.flags in
    let carry₂ = ap (λ w. w.c) second.flags in
    let low₂ =
      reg_at second (field_d lo) ∙ update_other m₁.reg (field_d hi) _ _ (λ e. apart (sym e)) in
    let high₂ = reg_at second (field_d hi) ∙ update_self m₁.reg (field_d hi) _ in
    let a₀ = valid.reg_fits (field_d lo) in
    let a₁ = valid.reg_fits (field_d hi) in
    let b₀ = valid.reg_fits (field_r lo) in
    let b₁ = valid.reg_fits (field_r hi) in (ground arith, ground arith)
