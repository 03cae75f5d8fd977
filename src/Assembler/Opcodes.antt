-- ===== src/Assembler/Opcodes.antt =====
-- The instruction table of src/opcode.c and its lookup.
pub mod Laws
pub mod Meaning
use mikode.Prelude.{ℕ, zero, suc, ◌+◌, ◌-◌, Bool, true, false, ◌&&◌, Option, some, none}
use mikode.Prelude.{List, [], ◌∷◌, ◌++◌, leb, ◌==◌, if◌then◌else◌, codes, replicate}

-- The operand types of src/instructions.h, in the order of their numbers.
pub data OpType : Type 0 where
  dir_word dir_bit db_t ldstr_bit bit skip str_dir ld_dir str_ind ld_ind : OpType
  implied dir_32 br_bit branch imm_word imm_byte dir_std dir_dual dir_sing : OpType

abbrev pub type_number : OpType → ℕ
type_number OpType.dir_word = 0
type_number OpType.dir_bit = 1
type_number OpType.db_t = 2
type_number OpType.ldstr_bit = 3
type_number OpType.bit = 4
type_number OpType.skip = 5
type_number OpType.str_dir = 6
type_number OpType.ld_dir = 7
type_number OpType.str_ind = 8
type_number OpType.ld_ind = 9
type_number OpType.implied = 10
type_number OpType.dir_32 = 11
type_number OpType.br_bit = 12
type_number OpType.branch = 13
type_number OpType.imm_word = 14
type_number OpType.imm_byte = 15
type_number OpType.dir_std = 16
type_number OpType.dir_dual = 17
type_number OpType.dir_sing = 18

pub record Row : Type 0 where
  pub name : List ℕ
  pub type : OpType
  pub opcode : ℕ

abbrev row : List ℕ → OpType → ℕ → Row
row n t o = record { name = n; type = t; opcode = o }

abbrev pub max_instr : ℕ
max_instr = 110

abbrev pub max_tok : ℕ
max_tok = 20

abbrev pub ins_1 : List Row
ins_1 =
    row (codes ".db") OpType.db_t 0x0000
    ∷ row (codes ".dw") OpType.db_t 0x0000
    ∷ row (codes ".equ") OpType.db_t 0x0000
    ∷ row (codes "AddWithC") OpType.dir_dual 0x1c00
    ∷ row (codes "Add") OpType.dir_dual 0x0c00
    ∷ row (codes "AddImmWord") OpType.imm_word 0x9600
    ∷ row (codes "And") OpType.dir_dual 0x2000
    ∷ row (codes "AndImm") OpType.imm_byte 0x7000
    ∷ row (codes "ArithShiftRt") OpType.dir_sing 0x9405
    ∷ row (codes "BitLoad") OpType.ldstr_bit 0xf800
    ∷ row (codes "BitClear") OpType.bit 0x9488
    ∷ row (codes "BranchBitClr") OpType.br_bit 0xf400
    ∷ row (codes "BranchBitSet") OpType.br_bit 0xf000
    ∷ row (codes "BranchCarryClr") OpType.branch 0xf400
    ∷ row (codes "BranchCarrySet") OpType.branch 0xf000
    ∷ row (codes "Break") OpType.implied 0x9598
    ∷ row (codes "BranchEqu") OpType.branch 0xf001
    ∷ row (codes "BranchGrEqu") OpType.branch 0xf404
    ∷ row (codes "brid") OpType.branch 0xf407
    ∷ row (codes "brie") OpType.branch 0xf007
    ∷ row (codes "BranchLower") OpType.branch 0xf000
    ∷ row (codes "BranchLessThan") OpType.branch 0xf004
    ∷ row (codes "BranchMinus") OpType.branch 0xf002
    ∷ row (codes "BranchNotEqu") OpType.branch 0xf401
    ∷ row (codes "BranchPlus") OpType.branch 0xf402
    ∷ row (codes "BranchSameHigh") OpType.branch 0xf400
    ∷ row (codes "BranchTClr") OpType.branch 0xf406
    ∷ row (codes "BranchTSet") OpType.branch 0xf006
    ∷ row (codes "BranchOverClr") OpType.branch 0xf403
    ∷ row (codes "BranchOverSet") OpType.branch 0xf003
    ∷ row (codes "BitSetSreg") OpType.bit 0x9408
    ∷ row (codes "BitStoreT") OpType.ldstr_bit 0xfa00
    ∷ row (codes "Call") OpType.dir_32 0x940e
    ∷ []

abbrev pub ins_2 : List Row
ins_2 =
    row (codes "ClearBitsReg") OpType.imm_byte 0xc000
    ∷ row (codes "ClearCarryF") OpType.implied 0x9488
    ∷ row (codes "cli") OpType.implied 0x94f8
    ∷ row (codes "ClearNegF") OpType.implied 0x94a8
    ∷ row (codes "ClearReg") OpType.dir_std 0x2400
    ∷ row (codes "ClearSignF") OpType.implied 0x94c8
    ∷ row (codes "ClearTranF") OpType.implied 0x94e8
    ∷ row (codes "ClearOverflowF") OpType.implied 0x94b8
    ∷ row (codes "ClearZeroF") OpType.implied 0x9498
    ∷ row (codes "Compliment") OpType.dir_sing 0x9400
    ∷ row (codes "Compare") OpType.dir_dual 0x1400
    ∷ row (codes "CompareCarry") OpType.dir_dual 0x0400
    ∷ row (codes "CompareImm") OpType.imm_byte 0x3000
    ∷ row (codes "CompareSkipEqu") OpType.dir_dual 0x1000
    ∷ row (codes "Decrement") OpType.dir_sing 0x940a
    ∷ row (codes "ExclusiveOr") OpType.dir_dual 0x2400
    ∷ row (codes "IndCall") OpType.implied 0x9509
    ∷ row (codes "IndJump") OpType.implied 0x9409
    ∷ row (codes "Increment") OpType.dir_sing 0x9403
    ∷ row (codes "Jump") OpType.dir_32 0x940c
    ∷ row (codes "LoadIndX") OpType.ld_ind 0x900c
    ∷ row (codes "LoadIndY") OpType.ld_ind 0x9008
    ∷ row (codes "LoadImm") OpType.imm_byte 0xe000
    ∷ row (codes "LoadDirect") OpType.ld_dir 0x9000
    ∷ row (codes "LogicalShiftRt") OpType.dir_sing 0x9406
    ∷ row (codes "LogicalShiftLt") OpType.dir_std 0x0c00
    ∷ row (codes "Move") OpType.dir_dual 0x2c00
    ∷ row (codes "MoveWord") OpType.dir_word 0x0100
    ∷ row (codes "Multiply") OpType.dir_dual 0x9c00
    ∷ row (codes "MultiplyS") OpType.dir_dual 0x0200
    ∷ row (codes "Negate") OpType.dir_sing 0x9401
    ∷ row (codes "NOP") OpType.implied 0x0000
    ∷ row (codes "Or") OpType.dir_dual 0x2800
    ∷ []

abbrev pub ins_3 : List Row
ins_3 =
    row (codes "OrImm") OpType.imm_byte 0x6000
    ∷ row (codes "Pop") OpType.dir_sing 0x9203
    ∷ row (codes "Push") OpType.dir_sing 0x920f
    ∷ row (codes "Return") OpType.implied 0x9508
    ∷ row (codes "RotateLeft") OpType.dir_std 0x1c00
    ∷ row (codes "RotateRight") OpType.dir_sing 0x9407
    ∷ row (codes "SubtractWithC") OpType.dir_dual 0x0800
    ∷ row (codes "SubtractImmC") OpType.imm_byte 0x4000
    ∷ row (codes "SubtractImmWord") OpType.imm_word 0x9700
    ∷ row (codes "SetBitsReg") OpType.imm_byte 0x6000
    ∷ row (codes "SkipBitRegClr") OpType.ldstr_bit 0xfc00
    ∷ row (codes "SkipBitRegSet") OpType.ldstr_bit 0xfe00
    ∷ row (codes "SetCarryF") OpType.implied 0x9408
    ∷ row (codes "sei") OpType.implied 0x9478
    ∷ row (codes "SetNegF") OpType.implied 0x9428
    ∷ row (codes "SetAllReg") OpType.dir_sing 0xef0f
    ∷ row (codes "SetSignF") OpType.implied 0x9448
    ∷ row (codes "SetTranF") OpType.implied 0x9468
    ∷ row (codes "SetOverflowF") OpType.implied 0x9438
    ∷ row (codes "SetZeroF") OpType.implied 0x9418
    ∷ row (codes "StoreIndX") OpType.str_ind 0x920c
    ∷ row (codes "StoreIndY") OpType.str_ind 0x9208
    ∷ row (codes "StoreDirect") OpType.str_dir 0x9200
    ∷ row (codes "Subtract") OpType.dir_dual 0x1800
    ∷ row (codes "SubtractImm") OpType.imm_byte 0x5000
    ∷ row (codes "Swap") OpType.dir_sing 0x9402
    ∷ row (codes "TestZero") OpType.dir_std 0x2000
    ∷ []

-- The rows that the initialiser leaves out are zero: an empty name, DIR_WORD and opcode 0.
abbrev pub blank_row : Row
blank_row = row [] OpType.dir_word 0

abbrev pub named_rows : List Row
named_rows = ins_1 ++ (ins_2 ++ ins_3)

abbrev pub ins : List Row
ins = named_rows ++ replicate (max_instr - 93) blank_row

-- `tolower` in the C locale
unfoldable pub tolower : ℕ → ℕ
tolower c = if leb b'A' c && leb c b'Z' then c + 32 else c

-- `strncasecmp (a, b, n) == 0`, for strings without their terminators
unfoldable pub same_name : ℕ → List ℕ → List ℕ → Bool
unfolding tolower
same_name zero a b = true
same_name (suc n) [] [] = true
same_name (suc n) [] (y ∷ b) = false
same_name (suc n) (x ∷ a) [] = false
same_name (suc n) (x ∷ a) (y ∷ b) = tolower x == tolower y && same_name n a b

unfoldable pub find_row : List ℕ → List Row → Option Row
unfolding same_name
find_row b [] = none
find_row b (r ∷ rest) = if same_name max_tok b r.name then some r else find_row b rest

-- `getopcode`: the row whose opcode and type are stored in the line; `none` is -1.
unfoldable pub getopcode : List ℕ → Option Row
unfolding find_row
getopcode b = find_row b ins
