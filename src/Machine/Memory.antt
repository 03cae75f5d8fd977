-- ===== src/Machine/Memory.antt =====
-- The stack, the fetch of a word, and the two-byte pointers of src/run_misc.c.
pub mod Laws
use mikode.Prelude.{ℕ, ◌+◌, Bool, ◌||◌, if◌then◌else◌, bit_and, bit_or}
use mikode.Prelude.{u8, u16, sub8, sub16, ◌<<◌, ◌==◌}
use mikode.Machine.{Machine, set_reg, set_prog}

-- `(*prog)[a] | ((*prog)[a + 1]) << 8`, as a `uint16_t`; the index does not wrap.
unfoldable pub word_at : Machine → ℕ → ℕ
word_at m a = u16 (bit_or (m.prog a) (m.prog (a + 1) << 8))

-- Whether the instruction at `ip` takes four bytes.
unfoldable pub check_32 : Machine → Bool
unfolding word_at
check_32 m =
    let op = word_at m m.ip in
    op == 0x940e || op == 0x940c || bit_and op 0xff0f == 0x9200 || bit_and op 0xff0f == 0x9000

unfoldable pub pop_val : Machine → ℕ × Machine
pop_val m =
    let sp₁ = u16 (m.sp + 1) in
    let sp₂ = if sp₁ == 0x0000 then 0xffff else sp₁ in (m.prog sp₂, record m { sp = sp₂ })

unfoldable pub push_val : ℕ → Machine → Machine
push_val v m =
    let m₁ = set_prog m.sp v m in
    let sp₁ = sub16 m.sp 1 in record m₁ { sp = if sp₁ == 0xf000 then 0xf000 else sp₁ }

unfoldable pub inc_reg : ℕ → Machine → Machine
inc_reg rg m =
    let m₁ = set_reg rg (u8 (m.reg rg + 1)) m in
    if m₁.reg rg == 0 then set_reg (rg + 1) (u8 (m₁.reg (rg + 1) + 1)) m₁ else m₁

unfoldable pub dec_reg : ℕ → Machine → Machine
dec_reg rg m =
    let m₁ = set_reg rg (sub8 (m.reg rg) 1) m in
    if m₁.reg rg == 0 then set_reg (rg + 1) (sub8 (m₁.reg (rg + 1)) 1) m₁ else m₁
