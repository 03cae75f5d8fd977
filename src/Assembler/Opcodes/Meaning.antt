-- ===== src/Assembler/Opcodes/Meaning.antt =====
-- Which handler of src/execute.c each mnemonic of src/opcode.c stands for.
use mikode.Prelude.{
  ℕ, ◌≡◌, refl, Bool, true, false, ◌&&◌, Option, some, none, List, [], ◌∷◌, ◌++◌, codes, all, ◌==◌,
  if◌then◌else◌, ◌∙◌,
}
use mikode.Decode.{Instr, decode, decode_com_on, decode_lds_on, decode_ror_on}
use mikode.Decode.Index.{index, index_sound}
use mikode.Assembler.Opcodes.{Row, ins, getopcode}
use mikode.Assembler.Opcodes.Laws.{getopcode-all}

-- The mnemonics with their handlers, the directives left out. LogicalShiftLt and RotateLeft add a
-- register to itself, ClearReg is an exclusive or and TestZero an and with itself, SetBitsReg an
-- or with an immediate, and SetAllReg a load.
abbrev meanings_1 : List (List ℕ × Instr)
meanings_1 =
    (codes "AddWithC", Instr.adc)
    ∷ (codes "Add", Instr.add)
    ∷ (codes "AddImmWord", Instr.adiw)
    ∷ (codes "And", Instr.and)
    ∷ (codes "AndImm", Instr.andi)
    ∷ (codes "ArithShiftRt", Instr.asr)
    ∷ (codes "BitLoad", Instr.bld)
    ∷ (codes "BitClear", Instr.bclr)
    ∷ (codes "BranchBitClr", Instr.branchc)
    ∷ (codes "BranchBitSet", Instr.branchs)
    ∷ (codes "BranchCarryClr", Instr.branchc)
    ∷ (codes "BranchCarrySet", Instr.branchs)
    ∷ (codes "Break", Instr.abrk)
    ∷ (codes "BranchEqu", Instr.branchs)
    ∷ (codes "BranchGrEqu", Instr.branchc)
    ∷ (codes "brid", Instr.branchc)
    ∷ (codes "brie", Instr.branchs)
    ∷ (codes "BranchLower", Instr.branchs)
    ∷ (codes "BranchLessThan", Instr.branchs)
    ∷ (codes "BranchMinus", Instr.branchs)
    ∷ (codes "BranchNotEqu", Instr.branchc)
    ∷ (codes "BranchPlus", Instr.branchc)
    ∷ (codes "BranchSameHigh", Instr.branchc)
    ∷ (codes "BranchTClr", Instr.branchc)
    ∷ (codes "BranchTSet", Instr.branchs)
    ∷ (codes "BranchOverClr", Instr.branchc)
    ∷ (codes "BranchOverSet", Instr.branchs)
    ∷ (codes "BitSetSreg", Instr.bset)
    ∷ (codes "BitStoreT", Instr.bst)
    ∷ (codes "Call", Instr.call)
    ∷ (codes "ClearBitsReg", Instr.cbr)
    ∷ (codes "ClearCarryF", Instr.bclr)
    ∷ (codes "cli", Instr.bclr)
    ∷ (codes "ClearNegF", Instr.bclr)
    ∷ (codes "ClearReg", Instr.eor)
    ∷ (codes "ClearSignF", Instr.bclr)
    ∷ (codes "ClearTranF", Instr.bclr)
    ∷ (codes "ClearOverflowF", Instr.bclr)
    ∷ (codes "ClearZeroF", Instr.bclr)
    ∷ (codes "Compliment", Instr.com_reg)
    ∷ (codes "Compare", Instr.cp)
    ∷ (codes "CompareCarry", Instr.cpc)
    ∷ (codes "CompareImm", Instr.cpi)
    ∷ (codes "CompareSkipEqu", Instr.cpse)
    ∷ (codes "Decrement", Instr.dec)
    ∷ []

abbrev meanings_2 : List (List ℕ × Instr)
meanings_2 =
    (codes "ExclusiveOr", Instr.eor)
    ∷ (codes "IndCall", Instr.icall)
    ∷ (codes "IndJump", Instr.ijmp)
    ∷ (codes "Increment", Instr.inc)
    ∷ (codes "Jump", Instr.jmp)
    ∷ (codes "LoadIndX", Instr.lddx)
    ∷ (codes "LoadIndY", Instr.lddy)
    ∷ (codes "LoadImm", Instr.ldi)
    ∷ (codes "LoadDirect", Instr.lds)
    ∷ (codes "LogicalShiftRt", Instr.lsr)
    ∷ (codes "LogicalShiftLt", Instr.add)
    ∷ (codes "Move", Instr.mov)
    ∷ (codes "MoveWord", Instr.movw)
    ∷ (codes "Multiply", Instr.mul)
    ∷ (codes "MultiplyS", Instr.muls)
    ∷ (codes "Negate", Instr.neg)
    ∷ (codes "NOP", Instr.nop)
    ∷ (codes "Or", Instr.or)
    ∷ (codes "OrImm", Instr.ori)
    ∷ (codes "Pop", Instr.pop)
    ∷ (codes "Push", Instr.push)
    ∷ (codes "Return", Instr.ret)
    ∷ (codes "RotateLeft", Instr.adc)
    ∷ (codes "RotateRight", Instr.ror)
    ∷ (codes "SubtractWithC", Instr.sbc)
    ∷ (codes "SubtractImmC", Instr.sbci)
    ∷ (codes "SubtractImmWord", Instr.sbiw)
    ∷ (codes "SetBitsReg", Instr.ori)
    ∷ (codes "SkipBitRegClr", Instr.sbrc)
    ∷ (codes "SkipBitRegSet", Instr.sbrs)
    ∷ (codes "SetCarryF", Instr.bset)
    ∷ (codes "sei", Instr.bset)
    ∷ (codes "SetNegF", Instr.bset)
    ∷ (codes "SetAllReg", Instr.ldi)
    ∷ (codes "SetSignF", Instr.bset)
    ∷ (codes "SetTranF", Instr.bset)
    ∷ (codes "SetOverflowF", Instr.bset)
    ∷ (codes "SetZeroF", Instr.bset)
    ∷ (codes "StoreIndX", Instr.stdx)
    ∷ (codes "StoreIndY", Instr.stdy)
    ∷ (codes "StoreDirect", Instr.sts)
    ∷ (codes "Subtract", Instr.sub)
    ∷ (codes "SubtractImm", Instr.subi)
    ∷ (codes "Swap", Instr.swap)
    ∷ (codes "TestZero", Instr.and)
    ∷ []

abbrev same_codes : List ℕ → List ℕ → Bool
same_codes [] [] = true
same_codes [] (y ∷ b) = false
same_codes (x ∷ a) [] = false
same_codes (x ∷ a) (y ∷ b) = x == y && same_codes a b

abbrev find_meaning : List ℕ → List (List ℕ × Instr) → Option Instr
find_meaning n [] = none
find_meaning n ((k, i) ∷ rest) = if same_codes n k then some i else find_meaning n rest

unfoldable pub meaning : List ℕ → Option Instr
meaning n = find_meaning n (meanings_1 ++ meanings_2)

abbrev agrees : Option Instr → ℕ → Bool
agrees none op = true
agrees (some i) op = index (decode op) == index i

every_row : all (λ r. agrees (meaning r.name) r.opcode) ins ≡ true
unfolding meaning decode decode_com_on decode_lds_on decode_ror_on index
every_row = refl

agrees_sound :
    (o : Option Instr) (i : Instr) (op : ℕ) → o ≡ some i → agrees o op ≡ true → decode op ≡ i
agrees_sound none i op h k = cc
agrees_sound (some j) i op h k = index_sound (decode op) j k ∙ same
  where
    same : j ≡ i
    same = cc

-- The opcode that the table gives to a mnemonic goes to the handler that the mnemonic stands for.
pub getopcode-meaning :
    (b : List ℕ) (r : Row) (i : Instr)
    → getopcode b ≡ some r
    → meaning r.name ≡ some i
    → decode r.opcode ≡ i
getopcode-meaning b r i found meant =
    agrees_sound (meaning r.name) i r.opcode meant
      (getopcode-all (λ (x : Row). agrees (meaning x.name) x.opcode) b r every_row found)
