-- ===== src/Tests/Assembler.antt =====
-- The statements about src/opcode.c, src/operand.c and src/parse.c at concrete lines.
use mikode.Prelude.{ℕ, ◌%◌, ◌≡◌, refl, arith, ◌↔◌, ◌≤◌, some, none, codes, bit_and, List}
use mikode.Decode.{Instr, decode}
use mikode.Assembler.Opcodes.Meaning.{meaning, getopcode-meaning}
use mikode.Handlers.Fields.{field_d, field_r, field_bit, field_offset, imm_byte}
use mikode.Handlers.Flow.{branch_to}
use mikode.Assembler.Opcodes.{Row, OpType, getopcode, find_row, same_name, tolower}
use mikode.Assembler.Encode.{
  enc_dir_dual, enc_indirect, enc_imm_byte, enc_imm_word, enc_br_bit, enc_branch,
}
use mikode.Assembler.Encode.Laws.{Kept, dual-Kept, str_ind-Kept}
use mikode.Assembler.Patch.{Patch, Code, patch_line}
use mikode.Assembler.Patch.Immediates.{opcode_of, imm_byte-Kept, imm_word-range}
use mikode.Assembler.Patch.Branches.{br_bit-lands, branch-reaches}

abbrev a_row : List ℕ → OpType → ℕ → Row
a_row n t o = record { name = n; type = t; opcode = o }

abbrev code_of : ℕ → Code
code_of op = record { opcode = op; opextra = 0 }

add_row : getopcode (codes "add") ≡ some (a_row (codes "Add") OpType.dir_dual 0x0c00)
unfolding getopcode find_row same_name tolower
add_row = refl

dual-Kept_example : Kept (some (enc_dir_dual 0x0c00 3 15)) field_d field_r 0x0c00 3 15
dual-Kept_example =
    dual-Kept (codes "add") (a_row (codes "Add") OpType.dir_dual 0x0c00) 3 15 add_row refl
      (omega arith) (omega arith)

bit_row : getopcode (codes "BitClear") ≡ some (a_row (codes "BitClear") OpType.bit 0x9488)
unfolding getopcode find_row same_name tolower
bit_row = refl

skip_row :
    getopcode (codes "SKIPBITREGSET") ≡ some (a_row (codes "SkipBitRegSet") OpType.ldstr_bit 0xfe00)
unfolding getopcode find_row same_name tolower
skip_row = refl

load_row : getopcode (codes "LoadIndX") ≡ some (a_row (codes "LoadIndX") OpType.ld_ind 0x900c)
unfolding getopcode find_row same_name tolower
load_row = refl

store_row : getopcode (codes "StoreIndY") ≡ some (a_row (codes "StoreIndY") OpType.str_ind 0x9208)
unfolding getopcode find_row same_name tolower
store_row = refl

str_ind-Kept_example :
    Kept (some (enc_indirect 0x9208 5 1)) field_d (λ w. bit_and w 0x0003) 0x9208 5 1
str_ind-Kept_example =
    str_ind-Kept (codes "StoreIndY") (a_row (codes "StoreIndY") OpType.str_ind 0x9208) 5 1 store_row
      refl (omega arith) (omega arith)

imm_row : getopcode (codes "LoadImm") ≡ some (a_row (codes "LoadImm") OpType.imm_byte 0xe000)
unfolding getopcode find_row same_name tolower
imm_row = refl

imm_byte-Kept_example :
    Kept
      (opcode_of (patch_line Patch.imm_byte 4 0x1ff (code_of (enc_imm_byte 0xe000 6 0))))
      field_d
      imm_byte
      0xe000
      6
      (0x1ff % 256)
imm_byte-Kept_example =
    imm_byte-Kept (codes "LoadImm") (a_row (codes "LoadImm") OpType.imm_byte 0xe000) 6 4 0x1ff 0
      imm_row refl (omega arith)

word_row : getopcode (codes "AddImmWord") ≡ some (a_row (codes "AddImmWord") OpType.imm_word 0x9600)
unfolding getopcode find_row same_name tolower
word_row = refl

word_made : enc_imm_word 0x9600 13 12 0 ≡ some 0x9620
unfolding enc_imm_word
word_made = refl

imm_word-range_example :
    (patch_line Patch.imm_word 0 256 (code_of 0x9600) ≡ none) ↔ (64 ≤ 256 % 256)
imm_word-range_example = imm_word-range 0 256 (code_of 0x9600)

abbrev back : Code
back = code_of 0xf3e1

back_made : patch_line Patch.branch 100 96 (code_of 0xf001) ≡ some back
unfolding patch_line
back_made = refl

equ_row : getopcode (codes "BranchEqu") ≡ some (a_row (codes "BranchEqu") OpType.branch 0xf001)
unfolding getopcode find_row same_name tolower
equ_row = refl

equ_opcode : 0xf001 ≡ enc_branch 0xf001 0
unfolding enc_branch
equ_opcode = refl

branch-reaches_example :
    (decode 0xf3e1 ≡ decode 0xf001) × (branch_to (field_offset 0xf3e1) 100 ≡ 96)
branch-reaches_example =
    branch-reaches (codes "BranchEqu") (a_row (codes "BranchEqu") OpType.branch 0xf001) 100 96
      (code_of 0xf001) back equ_row refl (omega arith) (omega arith) equ_opcode back_made

set_row :
    getopcode (codes "BranchBitSet") ≡ some (a_row (codes "BranchBitSet") OpType.br_bit 0xf000)
unfolding getopcode find_row same_name tolower
set_row = refl

set_made : enc_br_bit 0xf000 1 0 ≡ some 0xf001
unfolding enc_br_bit
set_made = refl

br_bit-lands_example :
    (decode 0xf3e1 ≡ decode 0xf000)
    × (field_bit 0xf3e1 ≡ 1)
    × (branch_to (field_offset 0xf3e1) 100 ≡ 96)
br_bit-lands_example =
    br_bit-lands (codes "BranchBitSet") (a_row (codes "BranchBitSet") OpType.br_bit 0xf000) 1 0xf001
      100 96 (code_of 0xf001) back set_row refl (omega arith) (omega arith) (omega arith) set_made
      refl back_made

add_meant : meaning (codes "Add") ≡ some Instr.add
unfolding meaning
add_meant = refl

getopcode-meaning_example : decode 0x0c00 ≡ Instr.add
getopcode-meaning_example =
    getopcode-meaning (codes "add") (a_row (codes "Add") OpType.dir_dual 0x0c00) Instr.add add_row
      add_meant
