-- ===== src/Handlers/Data.antt =====
-- Moves between registers, memory and the stack, of src/execute.c.
use mikode.Prelude.{ℕ, ◌+◌, ◌||◌, if◌then◌else◌, bit_and, bit_or}
use mikode.Prelude.{u16, sub16, ◌<<◌, ◌==◌, ltb}
use mikode.Machine.{Machine, Reply, ret0, set_reg, set_prog, advance}
use mikode.Machine.Memory.{push_val, pop_val, inc_reg, dec_reg}
use mikode.Handlers.Fields.{field_r, field_d, imm_byte}

unfoldable pub ldi : ℕ → Machine → Reply
ldi op m = ret0 (advance 2 (set_reg (field_d op) (imm_byte op) m))

unfoldable pub mov : ℕ → Machine → Reply
mov op m = ret0 (advance 2 (set_reg (field_d op) (m.reg (field_r op)) m))

unfoldable pub movw : ℕ → Machine → Reply
movw op m =
    let r = field_r op in
    let d = field_d op in
    let m₁ = set_reg d (m.reg r) m in
    if ltb 14 r || ltb 14 d then (1, m) else ret0 (advance 2 (set_reg (d + 1) (m₁.reg (r + 1)) m₁))

unfoldable pub pop : ℕ → Machine → Reply
pop op m = let (v, m₁) = pop_val m in ret0 (advance 2 (set_reg (field_d op) v m₁))

unfoldable pub push : ℕ → Machine → Reply
push op m = ret0 (advance 2 (push_val (m.reg (field_d op)) m))

unfoldable pub lds : ℕ → ℕ → Machine → Reply
lds op op2 m = ret0 (advance 4 (set_reg (field_d op) (m.prog op2) m))

unfoldable pub sts : ℕ → ℕ → Machine → Reply
sts op op2 m = ret0 (advance 4 (set_prog op2 (m.reg (field_d op)) m))

-- `index` of the pointer in registers `low` and `low + 1`
unfoldable pub pointer : ℕ → Machine → ℕ
pointer low m = bit_or (u16 (m.reg (low + 1) << 8)) (m.reg low)

-- `lddx` and `lddy` are this function, with `low` 12 and 14; so are `stdx` and `stdy` below.
unfoldable pub load_by : ℕ → ℕ → Machine → Machine
unfolding pointer
load_by low op m =
    let rg = field_d op in
    let index = pointer low m in
    let mode = bit_and op 0x0003 in
    if mode == 0x0000
    then set_reg rg (m.prog index) m
    else if mode == 0x0001
    then inc_reg low (set_reg rg (m.prog index) m)
    else if mode == 0x0002
    then set_reg rg (m.prog (sub16 index 1)) (dec_reg low m)
    else m

unfoldable pub store_by : ℕ → ℕ → Machine → Machine
unfolding pointer
store_by low op m =
    let rg = field_d op in
    let index = pointer low m in
    let mode = bit_and op 0x0003 in
    let m₁ = dec_reg low m in
    if mode == 0x0000
    then set_prog index (m.reg rg) m
    else if mode == 0x0001
    then inc_reg low (set_prog index (m.reg rg) m)
    else if mode == 0x0002
    then set_prog (sub16 index 1) (m₁.reg rg) m₁
    else m

unfoldable pub lddx : ℕ → Machine → Reply
unfolding load_by
lddx op m = ret0 (advance 2 (load_by 12 op m))

unfoldable pub lddy : ℕ → Machine → Reply
unfolding load_by
lddy op m = ret0 (advance 2 (load_by 14 op m))

unfoldable pub stdx : ℕ → Machine → Reply
unfolding store_by
stdx op m = ret0 (advance 2 (store_by 12 op m))

unfoldable pub stdy : ℕ → Machine → Reply
unfolding store_by
stdy op m = ret0 (advance 2 (store_by 14 op m))
