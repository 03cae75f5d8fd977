-- ===== src/Tests/Program.antt =====
-- The statements about the passes of src/parse.c at a small program.
use mikode.Prelude.{◌+◌, ◌≤◌, ◌≡◌, arith, refl, [], ◌∷◌, some, none, codes, map, if◌then◌else◌}
use mikode.Prelude.Chars.{char_at, strncmp}
use mikode.Prelude.Chars.{◌>>=◌, c_str, strncpy}
use mikode.Assembler.Token.{
  Buffer, get_token, skip_spaces, read_word, get_comment, read_comment, get_patch_label, read_label,
}
use mikode.Assembler.Symbols.{put_equate}
use mikode.Assembler.Value.{get_val, strtol, read_digits, to_int}
use mikode.Assembler.Directive.{get_org}
use mikode.Assembler.Encode.{enc_dir_dual, enc_branch}
use mikode.Assembler.Parse.{parse}
use mikode.Assembler.Operand.{get_operand}
use mikode.Assembler.Operand.Scanner.{get_reg}
use mikode.Assembler.Operand.Registers.{op_dir_dual}
use mikode.Assembler.Operand.Values.{op_branch, op_implied, op_dir_32, address_at}
use mikode.Assembler.Expression.{Evaluator, get_expr, read_expr}
use mikode.Assembler.Line.{Line, Rows, zero_line, object_line}
use mikode.Assembler.Compile.{
  compile_lines, compile, pass_1, put_labels, pass_2, place, assign_address, patched,
}
use mikode.Assembler.Opcodes.{OpType, getopcode, find_row, same_name, tolower}
use mikode.Assembler.Patch.{Patch, patch_line}
use mikode.Image.{write_asm, write_lines, write_line}
use mikode.Assembler.Compile.{Pass, no_tables}
use mikode.Assembler.Compile.Branches.{Every, Landed, passes-Landed}
use mikode.Assembler.Compile.Load.{Runs, compile-Runs_extra}

-- An evaluator that knows names and nothing else.
abbrev pub look_up : Evaluator
look_up e [] = none
look_up e (v ∷ vs) = if strncmp 10 e v.0 then some v.1 else look_up e vs

abbrev org_line : Buffer
org_line = char_at (codes ".org 256\n")

abbrev add_line : Buffer
add_line = char_at (codes "lp: Add r1,r2 ; sum\n")

abbrev branch_line : Buffer
branch_line = char_at (codes " BranchEqu lp\n")

abbrev break_line : Buffer
break_line = char_at (codes " Break\n")

abbrev org_result : Line
org_result = record zero_line { opcode = 0xffff; address = 256 }

abbrev add_result : Line
add_result = record zero_line {
  label = codes "lp:";
  size = 2;
  type = OpType.dir_dual;
  opcode = 0x0c12;
  address = 256;
  comment = codes "; sum";
}

abbrev branch_result : Line
branch_result = record zero_line {
  size = 2;
  type = OpType.branch;
  opcode = 0xf3f1;
  address = 258;
  patch = Patch.branch;
  patch_label = codes "lp\n\n";
}

abbrev break_result : Line
break_result = record zero_line { size = 2; type = OpType.implied; opcode = 0x9598; address = 260 }

abbrev no_rows : Rows
no_rows = record { rows = λ i k. 0; realloc_count = 1 }

compiled :
    compile_lines look_up [] (λ i k. 0) (org_line ∷ add_line ∷ branch_line ∷ break_line ∷ [])
    ≡ some (org_result ∷ add_result ∷ branch_result ∷ break_result ∷ [], no_rows)
unfolding compile_lines pass_1 put_labels pass_2 place assign_address patched ◌>>=◌ parse get_org
    get_token skip_spaces read_word get_val strtol read_digits to_int c_str getopcode find_row
    same_name tolower get_operand op_dir_dual get_reg get_comment read_comment op_branch
    get_patch_label read_label op_implied get_expr read_expr strncpy put_equate strncmp enc_dir_dual
    enc_branch patch_line
compiled = refl

fits :
    (write_asm no_rows.rows
      (map object_line (org_result ∷ add_result ∷ branch_result ∷ break_result ∷ []))).length
    ≤ 0xffff + 8
unfolding write_asm write_lines write_line
fits = omega arith

-- A call of the label, and what it becomes.
abbrev call_line : Buffer
call_line = char_at (codes " Call lp\n")

abbrev call_result : Line
call_result = record zero_line {
  size = 4;
  type = OpType.dir_32;
  opcode = 0x940e;
  opextra = 256;
  address = 258;
  patch = Patch.dir32;
  patch_label = codes "lp\n\n";
}

call_compiled :
    compile_lines look_up [] (λ i k. 0) (org_line ∷ add_line ∷ call_line ∷ [])
    ≡ some (org_result ∷ add_result ∷ call_result ∷ [], no_rows)
unfolding compile_lines pass_1 put_labels pass_2 place assign_address patched ◌>>=◌ parse get_org
    get_token skip_spaces read_word get_val strtol read_digits to_int c_str getopcode find_row
    same_name tolower get_operand op_dir_dual get_reg get_comment read_comment op_branch
    get_patch_label read_label op_implied get_expr read_expr strncpy put_equate strncmp enc_dir_dual
    enc_branch patch_line op_dir_32 address_at
call_compiled = refl

call_fits :
    (write_asm no_rows.rows (map object_line (org_result ∷ add_result ∷ call_result ∷ []))).length
    ≤ 0xffff + 8
unfolding write_asm write_lines write_line
call_fits = omega arith

compile-Runs_extra_example :
    Runs
      (compile look_up [] (λ i k. 0) (org_line ∷ add_line ∷ call_line ∷ []))
      (λ a. 0xaa)
      (258 + 2)
      256
compile-Runs_extra_example =
    compile-Runs_extra look_up [] (λ i k. 0) (λ a. 0xaa) (org_line ∷ add_line ∷ []) call_line []
      (org_result ∷ add_result ∷ []) call_result [] no_rows call_compiled refl refl refl
      (omega arith) call_fits refl (omega arith)

abbrev waiting : Line
waiting = record branch_result { opcode = 0xf001 }

abbrev first_pass : Pass
first_pass = record {
  lines = org_result ∷ add_result ∷ waiting ∷ break_result ∷ [];
  tables = no_tables;
  rows = no_rows;
}

first_pass_run :
    pass_1 look_up [] none no_tables no_rows (org_line ∷ add_line ∷ branch_line ∷ break_line ∷ [])
    ≡ some first_pass
unfolding compile_lines pass_1 put_labels pass_2 place assign_address patched ◌>>=◌ parse get_org
    get_token skip_spaces read_word get_val strtol read_digits to_int c_str getopcode find_row
    same_name tolower get_operand op_dir_dual get_reg get_comment read_comment op_branch
    get_patch_label read_label op_implied get_expr read_expr strncpy put_equate strncmp enc_dir_dual
    enc_branch patch_line
first_pass_run = refl

second_pass_run :
    pass_2 look_up (put_labels first_pass.lines no_tables) first_pass.lines
    ≡ some (org_result ∷ add_result ∷ branch_result ∷ break_result ∷ [])
unfolding compile_lines pass_1 put_labels pass_2 place assign_address patched ◌>>=◌ parse get_org
    get_token skip_spaces read_word get_val strtol read_digits to_int c_str getopcode find_row
    same_name tolower get_operand op_dir_dual get_reg get_comment read_comment op_branch
    get_patch_label read_label op_implied get_expr read_expr strncpy put_equate strncmp enc_dir_dual
    enc_branch patch_line
second_pass_run = refl

passes-Landed_example :
    Every
      (Landed look_up (put_labels first_pass.lines no_tables))
      (org_result ∷ add_result ∷ branch_result ∷ break_result ∷ [])
passes-Landed_example =
    passes-Landed look_up [] no_rows (org_line ∷ add_line ∷ branch_line ∷ break_line ∷ [])
      first_pass (org_result ∷ add_result ∷ branch_result ∷ break_result ∷ []) first_pass_run
      second_pass_run
