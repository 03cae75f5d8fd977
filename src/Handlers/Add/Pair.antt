-- ===== src/Handlers/Add/Pair.antt =====
-- Additions over two registers: the `add`/`adc` pair, and `adiw` of src/execute.c.
use mikode.Prelude.{ℕ, ◌+◌, ◌*◌, ◌/◌, ◌%◌, ◌≡◌, sym, ap, ◌∙◌, arith, ◌≢◌}
use mikode.Machine.{Machine, update}
use mikode.Machine.Flags.{status}
use mikode.Machine.Valid.{IsValid}
use mikode.Machine.Memory.Laws.{update_self, update_other}
use mikode.Handlers.Fields.{field_r, field_d}
use mikode.Handlers.Valid.Alu.{add-IsValid}
use mikode.Handlers.Add.{add, adc}
use mikode.Handlers.Add.Laws.{IsSum, add-IsSum, adc-IsSum}

reg_at :
    {d a b c : ℕ} {m m' : Machine}
    → IsSum d a b c m m'
    → (i : ℕ) → m'.reg i ≡ update m.reg d ((a + b + c) % 256) i
reg_at h i = ap (λ f. f i) h.registers

-- `add` on the low bytes and `adc` on the high ones leave the sum of two 16-bit numbers, modulo
-- 2 ^ 16, and its carry in C, if the first instruction does not write an operand of the second.
pub add-adc-pair :
    (lo hi : ℕ) (m : Machine)
    → IsValid m
    → field_d lo ≢ field_d hi
    → field_d lo ≢ field_r hi
    → let a = m.reg (field_d hi) * 256 + m.reg (field_d lo) in
      let b = m.reg (field_r hi) * 256 + m.reg (field_r lo) in
      let m' = (adc hi (add lo m).1).1 in
      (m'.reg (field_d hi) * 256 + m'.reg (field_d lo) ≡ (a + b) % 65536)
      × ((status m'.sreg).c ≡ (a + b) / 65536)
add-adc-pair lo hi m valid apart safe =
    let first = add-IsSum lo m valid in
    let m₁ = (add lo m).1 in
    let second = adc-IsSum hi m₁ (add-IsValid lo valid) in
    let low = reg_at first (field_d lo) ∙ update_self m.reg (field_d lo) _ in
    let high = reg_at first (field_d hi) ∙ update_other m.reg (field_d lo) _ _ apart in
    let taken = reg_at first (field_r hi) ∙ update_other m.reg (field_d lo) _ _ safe in
    let carry₁ = ap (λ w. w.c) first.flags in
    let carry₂ = ap (λ w. w.c) second.flags in
    let low₂ =
      reg_at second (field_d lo) ∙ update_other m₁.reg (field_d hi) _ _ (λ e. apart (sym e)) in
    let high₂ = reg_at second (field_d hi) ∙ update_self m₁.reg (field_d hi) _ in
    let a₀ = valid.reg_fits (field_d lo) in
    let a₁ = valid.reg_fits (field_d hi) in
    let b₀ = valid.reg_fits (field_r lo) in
    let b₁ = valid.reg_fits (field_r hi) in (ground arith, ground arith)
