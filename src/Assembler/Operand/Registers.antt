-- ===== src/Assembler/Operand/Registers.antt =====
-- The operand types of src/operand.c that take registers and nothing else.
use mikode.Prelude.{ℕ, ◌||◌, Option, some, none, ◌==◌, if◌then◌else◌}
use mikode.Prelude.Chars.{char_at, ◌>>=◌, ◌>>◌}
use mikode.Assembler.Token.{Buffer, Scan}
use mikode.Assembler.Symbols.{Tables}
use mikode.Assembler.Line.{Line}
use mikode.Assembler.Encode.{enc_dir_sing, enc_dir_dual, enc_dir_std, enc_dir_word, enc_indirect}
use mikode.Assembler.Operand.Scanner.{
  Filled, start_at, clear, step_back, next, starts, get_reg, filled,
}

module _ (t : Tables) (b : Buffer) (l : Line) (p : ℕ) where
  unfoldable pub op_dir_sing : Option Filled
  op_dir_sing = do
    let s = next b (start_at p)
    d ← get_reg t s.tok
    filled (enc_dir_sing l.opcode d) 2 s.pos l

  unfoldable pub op_dir_dual : Option Filled
  op_dir_dual = do
    let s₁ = next b (start_at p)
    d ← get_reg t s₁.tok
    let s₂ = next b (step_back s₁)
    starts b',' s₂
    let s₃ = next b (clear s₂)
    r ← get_reg t s₃.tok
    filled (enc_dir_dual l.opcode d r) 2 s₃.pos l

  unfoldable pub op_dir_std : Option Filled
  op_dir_std = do
    let s = next b (start_at p)
    d ← get_reg t s.tok
    filled (enc_dir_std l.opcode d) 2 s.pos l

  -- `Rd+1:Rd,Rr+1:Rr`
  unfoldable pub op_dir_word : Option Filled
  op_dir_word = do
    let s₁ = next b (start_at p)
    d ← get_reg t s₁.tok
    let s₂ = next b (step_back s₁)
    starts b':' s₂
    let s₃ = next b (clear s₂)
    dl ← get_reg t s₃.tok
    let s₄ = next b (step_back s₃)
    starts b',' s₄
    let s₅ = next b s₄
    r ← get_reg t s₅.tok
    let s₆ = next b (step_back s₅)
    starts b':' s₆
    let s₇ = next b (clear s₆)
    rl ← get_reg t s₇.tok
    op ← enc_dir_word l.opcode d dl r rl
    filled op 2 s₇.pos l

  -- `X` or `Y` and what may follow it, `plain` or `+`; or either behind `-`
  abbrev pub addressing_mode : ℕ → Scan → Option ℕ
  addressing_mode plain s =
      let is_pointer = λ (c : ℕ). c == b'X' || c == b'Y' in
      let c = char_at s.tok 0 in
      let d = char_at s.tok 1 in
      if is_pointer c
      then (if d == plain then some 0x00 else if d == b'+' then some 0x01 else none)
      else (if c == b'-' then (if is_pointer d then some 0x02 else none) else none)

  unfoldable pub op_ld_ind : Option Filled
  unfolding addressing_mode
  op_ld_ind = do
    let s₁ = next b (start_at p)
    d ← get_reg t s₁.tok
    let s₂ = next b (step_back s₁)
    starts b',' s₂
    let s₃ = next b (clear s₂)
    mask ← addressing_mode 0 s₃
    filled (enc_indirect l.opcode d mask) 2 s₃.pos l

  unfoldable pub op_str_ind : Option Filled
  unfolding addressing_mode
  op_str_ind = do
    let s₁ = next b (start_at p)
    mask ← addressing_mode b',' s₁
    let s₂ = next b (step_back s₁)
    starts b',' s₂
    let s₃ = next b (clear s₂)
    d ← get_reg t s₃.tok
    filled (enc_indirect l.opcode d mask) 2 s₃.pos l
