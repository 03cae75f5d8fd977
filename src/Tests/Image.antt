-- ===== src/Tests/Image.antt =====
-- The statement about src/write.c and src/load.c at a program of two lines.
use mikode.Prelude.{ℕ, ◌+◌, ◌≤◌, arith, inr, refl, [], ◌∷◌}
use mikode.Assembler.Opcodes.{OpType}
use mikode.Image.{Line, write_asm, write_lines, write_line, load}
use mikode.Image.Write.{Apart, none_left, beside}
use mikode.Image.Load.{Fetches, load-write_asm}

-- `LoadImm r1,7` at 0 and `Break` at 2.
abbrev load_imm : Line
load_imm = record {
  address = 0;
  size = 2;
  dataidx = 0;
  type = OpType.imm_byte;
  opcode = 0xe017;
  opextra = 0;
}

abbrev break_line : Line
break_line = record {
  address = 2;
  size = 2;
  dataidx = 0;
  type = OpType.implied;
  opcode = 0x9598;
  opextra = 0;
}

abbrev no_rows : ℕ → ℕ → ℕ
no_rows i k = 0

file_fits : (write_asm no_rows (load_imm ∷ break_line ∷ [])).length ≤ 0xffff + 8
unfolding write_asm write_lines write_line
file_fits = omega arith

break_line-Apart : Apart 0 2 (break_line ∷ [])
break_line-Apart = beside (inr (omega arith)) none_left

load-write_asm_example :
    Fetches (load (λ a. 0xaa) (write_asm no_rows (load_imm ∷ break_line ∷ []))) 0 0xe017
load-write_asm_example =
    load-write_asm no_rows (λ a. 0xaa) [] load_imm (break_line ∷ []) refl (omega arith)
      (omega arith) break_line-Apart file_fits
