-- ===== src/Tests/Whole.antt =====
-- The statements about the whole program, at a source file of one name.
use mikode.Prelude.{
  ℕ, ◌+◌, ◌≡◌, ◌≤◌, ap, ◌∙◌, refl, arith, true, false, List, [], ◌∷◌, some, none, codes, map,
  length, all_below, if◌then◌else◌,
}
use mikode.Prelude.Chars.{strcmp, strncmp}
use mikode.Prelude.Chars.{◌>>=◌, c_str, strncpy}
use mikode.Assembler.Token.{
  Buffer, get_token, skip_spaces, read_word, get_comment, read_comment, get_patch_label, read_label,
}
use mikode.Assembler.Symbols.{put_equate}
use mikode.Assembler.Value.{get_val, strtol, read_digits, to_int}
use mikode.Assembler.Directive.{get_org}
use mikode.Assembler.Encode.{enc_dir_dual, enc_branch}
use mikode.Assembler.Parse.{parse}
use mikode.Assembler.Operand.{get_operand}
use mikode.Assembler.Operand.Scanner.{get_reg}
use mikode.Assembler.Operand.Registers.{op_dir_dual}
use mikode.Assembler.Operand.Values.{op_branch, op_implied}
use mikode.Assembler.Expression.{get_expr, read_expr}
use mikode.Assembler.Line.{Line, Rows, zero_line, object_line}
use mikode.Assembler.Compile.{
  compile_lines, pass_1, put_labels, pass_2, place, assign_address, patched,
}
use mikode.Assembler.Opcodes.{OpType, getopcode, find_row, same_name, tolower}
use mikode.Assembler.Patch.{patch_line}
use mikode.Image.{write_asm, write_lines, write_line}
use mikode.Image.{File}
use mikode.Program.{Disk, file_of}
use mikode.Program.Text.{get_lines, read_lines, put_line, count_newlines}
use mikode.Program.Text.Count.{get_lines-count}
use mikode.Program.Names.{source}
use mikode.Program.Cleanup.{cleared, freeable, frees_set}
use mikode.Program.Cleanup.Laws.{accepted-frees_set}
use mikode.Program.Run.{Host}
use mikode.Program.Main.{main, r}
use mikode.Program.Laws.{AssembledAndRun}
use mikode.Program.Assembled.{main-AssembledAndRun}
use mikode.Program.Status.{status_of, main-status}
use mikode.Tests.Gpio.{granting, small_port, pi_board}
use mikode.Tests.Program.{look_up}

abbrev text : List ℕ
text = codes " Add r1,r2\n Break\n"

abbrev source_file : File
source_file = file_of text

abbrev small_disk : Disk
small_disk = record {
  file = λ name. if strcmp name (codes "sum.asm") then some source_file else none;
  writable = λ name. true;
}

abbrev small_host : Host
small_host = record {
  built = false;
  board = pi_board;
  os = granting;
  port = small_port;
  uid = 1000;
  keys = [];
  rand = λ i. 0;
  old_win = λ i. 0;
  old_rom = λ i. 0;
  gpio_rom = false;
  fresh = λ a. 0xaa;
}

abbrev no_bytes : Buffer
no_bytes i = 0

abbrev first_line : Buffer
first_line = put_line (codes " Add r1,r2\n") no_bytes

abbrev last_line : Buffer
last_line = put_line (codes " Break\n") first_line

lines : get_lines source_file no_bytes ≡ first_line ∷ last_line ∷ []
unfolding get_lines read_lines
lines = refl

abbrev add_result : Line
add_result = record zero_line { size = 2; type = OpType.dir_dual; opcode = 0x0c12; address = 0 }

abbrev break_result : Line
break_result = record zero_line { size = 2; type = OpType.implied; opcode = 0x9598; address = 2 }

abbrev no_rows : Rows
no_rows = record { rows = λ i k. 0; realloc_count = 1 }

compiled :
    compile_lines look_up [] (λ i k. 0) (first_line ∷ last_line ∷ [])
    ≡ some (add_result ∷ break_result ∷ [], no_rows)
unfolding compile_lines pass_1 put_labels pass_2 place assign_address patched ◌>>=◌ parse get_org
    get_token skip_spaces read_word get_val strtol read_digits to_int c_str getopcode find_row
    same_name tolower get_operand op_dir_dual get_reg get_comment read_comment op_branch
    get_patch_label read_label op_implied get_expr read_expr strncpy put_equate strncmp enc_dir_dual
    enc_branch patch_line
compiled = refl

fits :
    (write_asm no_rows.rows (map object_line (add_result ∷ break_result ∷ []))).length ≤ 0xffff + 8
unfolding write_asm write_lines write_line
fits = omega arith

there : small_disk.file (source (codes "sum")) ≡ some source_file
unfolding strcmp
there = refl

main-AssembledAndRun_example :
    AssembledAndRun look_up []
      (λ i k. 0)
      no_bytes
      (λ k. false)
      small_host
      5
      (codes "sum")
      small_disk
      0
      0x0c12
main-AssembledAndRun_example =
    main-AssembledAndRun look_up [] (λ i k. 0) no_bytes (λ k. false) small_host 5 (codes "sum")
      small_disk source_file (omega arith) there refl refl [] first_line (last_line ∷ []) lines []
      add_result (break_result ∷ []) no_rows compiled refl refl refl (omega arith) fits
      (omega arith)

main-status_example :
    (main look_up []
      (λ i k. 0)
      no_bytes
      (λ k. false)
      small_host
      5
      (r ∷ [])
      (codes "sum" ∷ [])
      small_disk).status
    ≡ status_of look_up []
        (λ i k. 0)
        no_bytes
        (λ k. false)
        small_host
        5
        (r ∷ [])
        (codes "sum" ∷ [])
        small_disk
main-status_example =
    main-status look_up [] (λ i k. 0) no_bytes (λ k. false) small_host 5 (r ∷ []) (codes "sum" ∷ [])
      small_disk

-- A file whose last line has no newline.
get_lines-count_example :
    length (get_lines (file_of (codes " Break\n Break")) no_bytes)
    ≡ count_newlines 13 0 (file_of (codes " Break\n Break")) + 1
get_lines-count_example = get_lines-count (file_of (codes " Break\n Break")) no_bytes

accepted-frees_set_example :
    frees_set look_up [] (λ i k. 0) no_bytes (λ k. false) source_file ≡ true
accepted-frees_set_example =
    accepted-frees_set look_up [] (λ i k. 0) no_bytes (λ k. false) source_file
      (ap (compile_lines look_up [] (λ i k. 0)) lines ∙ compiled)

-- A word that is no mnemonic, and a line behind it.
abbrev wrong_file : File
wrong_file = file_of (codes " Wrong\n Break\n")

wrong_frees_unset : frees_set look_up [] (λ i k. 0) no_bytes (λ k. false) wrong_file ≡ false
unfolding frees_set freeable cleared all_below place assign_address ◌>>=◌ parse get_org get_token
    skip_spaces read_word get_val strtol read_digits to_int c_str getopcode find_row same_name
    tolower get_operand op_dir_dual get_reg get_comment read_comment op_branch get_patch_label
    read_label op_implied get_lines read_lines count_newlines
wrong_frees_unset = refl
