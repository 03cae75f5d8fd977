-- ===== src/Assembler/Operand/Values.antt =====
-- The operand types of src/operand.c that take a value, a bit or an address.
use mikode.Prelude.{ℕ, ◌+◌, Option, some, if◌then◌else◌}
use mikode.Prelude.Chars.{c_str, isdigit, ◌>>=◌, ◌>>◌}
use mikode.Assembler.Token.{Buffer, Scan}
use mikode.Assembler.Symbols.{Tables}
use mikode.Assembler.Value.{get_val, val_16}
use mikode.Assembler.Expression.{Evaluator, get_expr}
use mikode.Assembler.Line.{Line}
use mikode.Assembler.Patch.{Patch}
use mikode.Assembler.Encode.{
  enc_imm_byte, enc_imm_word, enc_branch, enc_br_bit, enc_bit, enc_ldstr_bit, enc_direct,
}
use mikode.Assembler.Operand.Scanner.{
  Filled, start_at, clear, step_back, next, next_label, starts, get_reg, put_patch, filled,
}

-- What DIR_32, LD_DIR and STR_DIR do where the address stands: the line with `opextra`, and the
-- scanner behind it.
unfoldable pub address_at : Tables → Buffer → Line → Scan → Option (Line × Scan)
address_at t b l s =
    if isdigit (b s.pos)
    then (do
      let s₁ = next b s
      v ← get_val t (c_str s₁.tok) val_16
      some (record l { opextra = v }, s₁))
    else (let s₁ = next_label b s in some (record (put_patch Patch.dir32 s₁ l) { opextra = 0 }, s₁))

unfoldable pub op_implied : Line → ℕ → Option Filled
op_implied l p = filled l.opcode 2 p l

unfoldable pub op_branch : Buffer → Line → ℕ → Option Filled
op_branch b l p =
    let s = next_label b (start_at p) in
    filled (enc_branch l.opcode 0) 2 s.pos (put_patch Patch.branch s l)

module _ (t : Tables) (b : Buffer) (l : Line) (p : ℕ) where
  unfoldable pub op_imm_byte : Option Filled
  op_imm_byte = do
    let s₁ = next b (start_at p)
    d ← get_reg t s₁.tok
    let s₂ = next b (step_back s₁)
    starts b',' s₂
    let s₃ = next_label b s₂
    filled (enc_imm_byte l.opcode d 0) 2 s₃.pos (put_patch Patch.imm_byte s₃ l)

  unfoldable pub op_imm_word : Option Filled
  op_imm_word = do
    let s₁ = next b (start_at p)
    d ← get_reg t s₁.tok
    let s₂ = next b (step_back s₁)
    starts b':' s₂
    let s₃ = next b (clear s₂)
    dl ← get_reg t s₃.tok
    op ← enc_imm_word l.opcode d dl 0
    let s₄ = next b (step_back s₃)
    starts b',' s₄
    let s₅ = next_label b s₄
    filled op 2 s₅.pos (put_patch Patch.imm_word s₅ l)

  unfoldable pub op_dir_32 : Option Filled
  unfolding address_at
  op_dir_32 = do (l₁, s) ← address_at t b l (start_at p); filled l.opcode 4 s.pos l₁

  unfoldable pub op_ld_dir : Option Filled
  unfolding address_at
  op_ld_dir = do
    let s₁ = next b (start_at p)
    d ← get_reg t s₁.tok
    let s₂ = next b (step_back s₁)
    starts b',' s₂
    (l₁, s₃) ← address_at t b l s₂
    filled (enc_direct l.opcode d) 4 s₃.pos l₁

  unfoldable pub op_str_dir : Option Filled
  unfolding address_at
  op_str_dir = do
    (l₁, s₁) ← address_at t b l (start_at p)
    let s₂ = next b (clear s₁)
    starts b',' s₂
    let s₃ = next b s₂
    d ← get_reg t s₃.tok
    filled (enc_direct l.opcode d) 4 s₃.pos l₁

module _ (te_interp : Evaluator) (t : Tables) (b : Buffer) (l : Line) (p : ℕ) where
  -- The bit cannot be patched.
  unfoldable pub op_br_bit : Option Filled
  op_br_bit = do
    (bit, q) ← get_expr te_interp t b p
    op ← enc_br_bit l.opcode bit 0
    let s₁ = next b (start_at (q + 1))
    starts b',' s₁
    let s₂ = next_label b s₁
    filled op 2 s₂.pos (put_patch Patch.branch s₂ l)

  unfoldable pub op_bit : Option Filled
  op_bit = do (bit, q) ← get_expr te_interp t b p; op ← enc_bit l.opcode bit; filled op 2 q l

  unfoldable pub op_ldstr_bit : Option Filled
  op_ldstr_bit = do
    let s₁ = next b (start_at p)
    d ← get_reg t s₁.tok
    let s₂ = next b (step_back s₁)
    starts b',' s₂
    (bit, q) ← get_expr te_interp t b s₂.pos
    op ← enc_ldstr_bit l.opcode d bit
    filled op 2 q l
