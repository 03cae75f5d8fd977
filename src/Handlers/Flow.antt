-- ===== src/Handlers/Flow.antt =====
-- Branches, jumps, calls, skips and the break, of src/execute.c.
pub mod Laws
pub mod Compare
pub mod Skip
use mikode.Prelude.{ℕ, ◌+◌, Bool, not, if◌then◌else◌, bit_and, bit_or}
use mikode.Prelude.{u8, u16, sub16, not32, ◌<<◌, ◌>>◌, truth}
use mikode.Machine.{Machine, Reply, ret0, advance}
use mikode.Machine.Memory.{check_32, push_val, pop_val}
use mikode.Handlers.Fields.{field_d, field_bit, field_offset}

-- `ip` after a branch that is taken: a negative offset is subtracted by its size.
unfoldable pub branch_to : ℕ → ℕ → ℕ
branch_to k ip =
    if truth (bit_and k 0x40) then sub16 ip (u8 (not32 (bit_or k 0xc0)) + 1) else u16 (ip + k)

unfoldable pub branch_if : Bool → ℕ → Machine → Machine
unfolding branch_to
branch_if taken k m = if taken then record m { ip = branch_to k m.ip } else advance 2 m

unfoldable pub branchs : ℕ → Machine → Reply
unfolding branch_if
branchs op m =
    ret0 (branch_if (truth (bit_and (1 << field_bit op) m.sreg)) (u8 (field_offset op)) m)

unfoldable pub branchc : ℕ → Machine → Reply
unfolding branch_if
branchc op m =
    ret0 (branch_if (not (truth (bit_and (1 << field_bit op) m.sreg))) (u8 (field_offset op)) m)

unfoldable pub abrk : ℕ → Machine → Reply
abrk op m = (1, advance 2 m)

unfoldable pub nop : ℕ → Machine → Reply
nop op m = ret0 (advance 2 m)

unfoldable pub jmp : ℕ → ℕ → Machine → Reply
jmp op op2 m = ret0 (record m { ip = op2 })

unfoldable pub ijmp : ℕ → Machine → Reply
ijmp op m = ret0 (record m { ip = bit_or (u16 (m.reg 15 << 8)) (m.reg 14) })

-- The return address, low byte first.
unfoldable pub push_ip : Machine → Machine
push_ip m =
    let l = u8 (bit_and m.ip 0x00ff) in
    let h = u8 (bit_and m.ip 0xff00 >> 8) in push_val h (push_val l m)

unfoldable pub call : ℕ → ℕ → Machine → Reply
unfolding push_ip
call op op2 m = ret0 (record (push_ip (advance 4 m)) { ip = op2 })

unfoldable pub icall : ℕ → Machine → Reply
unfolding push_ip
icall op m =
    let m₁ = push_ip (advance 2 m) in
    ret0 (record m₁ { ip = bit_or (u16 (m₁.reg 15 << 8)) (m₁.reg 14) })

unfoldable pub ret : ℕ → Machine → Reply
ret op m =
    let (high, m₁) = pop_val m in
    let (l, m₂) = pop_val m₁ in ret0 (record m₂ { ip = bit_or (u16 (high << 8)) l })

-- `ip += 2`, past the next instruction, and once more if that takes four bytes
unfoldable pub skip_if : Bool → Machine → Machine
skip_if taken m =
    let m₁ = advance 2 m in
    let m₂ = if taken then (if check_32 m₁ then advance 2 m₁ else m₁) else m in advance 2 m₂

unfoldable pub sbrc : ℕ → Machine → Reply
unfolding skip_if
sbrc op m = ret0 (skip_if (not (truth (bit_and (m.reg (field_d op)) (1 << field_bit op)))) m)

unfoldable pub sbrs : ℕ → Machine → Reply
unfolding skip_if
sbrs op m = ret0 (skip_if (truth (bit_and (m.reg (field_d op)) (1 << field_bit op))) m)
