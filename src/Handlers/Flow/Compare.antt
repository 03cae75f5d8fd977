-- ===== src/Handlers/Flow/Compare.antt =====
-- A comparison and the branch behind it, of src/execute.c.
use mikode.Prelude.{ℕ, ◌+◌, ◌%◌, ◌^◌, ◌<◌, ◌≡◌, refl, ap, ◌∙◌, arith, Bool, true, false}
use mikode.Prelude.{not, bit_and, ◌==◌, if◌then◌else◌, ltb, u8, truth, ◌<<◌}
use mikode.Prelude.Bits.{bit, bit_and_comm}
use mikode.Machine.{Machine}
use mikode.Machine.Flags.{digit, truth-bit_and_pow}
use mikode.Machine.Valid.{IsValid}
use mikode.Handlers.Fields.{field_r, field_d, field_bit, field_offset}
use mikode.Handlers.Fields.Laws.{field_offset_lem}
use mikode.Handlers.Sub.{cp}
use mikode.Handlers.Sub.Laws.{less, cp-IsCompared}
use mikode.Handlers.Flow.{branch_to, branch_if, branchs, branchc}

-- The instruction pointer behind a branch at `ip`, taken or not.
abbrev pub landing : Bool → ℕ → ℕ → ℕ
landing taken br ip = if taken then branch_to (field_offset br) ip else (ip + 2) % 65536

ip-branch_if :
    (taken : Bool) (br : ℕ) (m : Machine)
    → (branch_if taken (u8 (field_offset br)) m).ip ≡ landing taken br m.ip
unfolding branch_if
ip-branch_if true br m = ap (λ k. branch_to k m.ip) (omega (arith, field_offset_lem br))
ip-branch_if false br m = refl

flag_test : (b w : ℕ) → truth (bit_and (1 << b) w) ≡ (bit b w == 1)
flag_test b w =
    let one : 1 << b ≡ 2 ^ b = omega arith in
    rw (one, bit_and_comm (2 ^ b) w) (truth-bit_and_pow b w)

-- `branchs` looks at the bit of `sreg` that its opcode names, and `branchc` at its opposite.
pub ip-branchs :
    (br : ℕ) (m : Machine) → (branchs br m).1.ip ≡ landing (bit (field_bit br) m.sreg == 1) br m.ip
unfolding branchs
ip-branchs br m =
    ip-branch_if _ br m ∙ ap (λ t. landing t br m.ip) (flag_test (field_bit br) m.sreg)

pub ip-branchc :
    (br : ℕ) (m : Machine)
    → (branchc br m).1.ip ≡ landing (not (bit (field_bit br) m.sreg == 1)) br m.ip
unfolding branchc
ip-branchc br m =
    ip-branch_if _ br m ∙ ap (λ t. landing (not t) br m.ip) (flag_test (field_bit br) m.sreg)

equal_bit : (a b : ℕ) → a < 256 → b < 256 → (digit (less a b 0 == 0) == 1) ≡ (a == b)
equal_bit a b ha hb = ground arith

lower_bit : (a b : ℕ) → (digit (ltb a (b + 0)) == 1) ≡ ltb a b
lower_bit a b = ground arith

-- `cp` and the branch behind it: with `a` and `b` the registers compared, a branch on Z is taken
-- exactly when `a` equals `b`, one on Z clear exactly when not, one on C exactly when `a` is
-- below `b`, and one on C clear exactly when not; a branch that is not taken goes to the next
-- instruction.
pub branch-cp :
    (op eq ne lower higher : ℕ) (m : Machine)
    → IsValid m
    → field_bit eq ≡ 1
    → field_bit ne ≡ 1
    → field_bit lower ≡ 0
    → field_bit higher ≡ 0
    → let a = m.reg (field_d op) in
      let b = m.reg (field_r op) in
      let m' = (cp op m).1 in
      let ip' = (m.ip + 2) % 65536 in
      ((branchs eq m').1.ip ≡ landing (a == b) eq ip')
      × ((branchc ne m').1.ip ≡ landing (not (a == b)) ne ip')
      × ((branchs lower m').1.ip ≡ landing (ltb a b) lower ip')
      × ((branchc higher m').1.ip ≡ landing (not (ltb a b)) higher ip')
branch-cp op eq ne lower higher m valid on_eq on_ne on_lower on_higher =
    let compared = cp-IsCompared op m valid in
    let a = m.reg (field_d op) in
    let b = m.reg (field_r op) in
    let m' = (cp op m).1 in
    let zero_test : (bit 1 m'.sreg == 1) ≡ (a == b) =
      ap (λ w. w.z == 1) compared.flags ∙ equal_bit a b (valid.reg_fits _) (valid.reg_fits _) in
    let carry_test : (bit 0 m'.sreg == 1) ≡ ltb a b =
      ap (λ w. w.c == 1) compared.flags ∙ lower_bit a b in
    (
      rw (ip-branchs eq m', on_eq, zero_test, compared.next),
      rw (ip-branchc ne m', on_ne, zero_test, compared.next),
      rw (ip-branchs lower m', on_lower, carry_test, compared.next),
      rw (ip-branchc higher m', on_higher, carry_test, compared.next),
    )
