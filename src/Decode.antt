-- ===== src/Decode.antt =====
-- The `if` ladder of `execute` in src/execute.c: which handler an opcode goes to. The masks are
-- those of src/runheader.h. The ladder is cut in four, each part ending in the next.
pub mod Index
pub mod Sizes
use mikode.Prelude.{ℕ, bit_and, ◌==◌, if◌then◌else◌}

-- A constructor for each handler that the ladder names; `unrecognised` is its last `else`.
pub data Instr : Type 0 where
  adc add abrk adiw and andi asr bclr bld branchc branchs bset : Instr
  bst cbr call com_reg cp cpc cpi cpse dec eor icall ijmp : Instr
  inc jmp lddx lddy ldi lds lsl lsr mov movw mul muls : Instr
  neg nop or ori pop push ret ror sbc sbci sbiw sbr : Instr
  sbrc sbrs ser stdx stdy sts sub subi swap : Instr
  unrecognised : Instr

abbrev pub drd_msk : ℕ → ℕ
drd_msk x = bit_and x 0xff00

abbrev pub brch_msk : ℕ → ℕ
brch_msk x = bit_and x 0xfc00

abbrev pub imp_msk : ℕ → ℕ
imp_msk x = bit_and x 0xffff

abbrev pub imm_msk : ℕ → ℕ
imm_msk x = bit_and x 0xf000

abbrev pub drs_msk : ℕ → ℕ
drs_msk x = bit_and x 0xff0f

abbrev pub bit_msk : ℕ → ℕ
bit_msk x = bit_and x 0xff8f

abbrev pub lsb_msk : ℕ → ℕ
lsb_msk x = bit_and x 0xff08

abbrev pub ldd_msk : ℕ → ℕ
ldd_msk x = bit_and x 0xff0c

unfoldable pub decode_ror_on : ℕ → Instr
decode_ror_on op =
    if drs_msk op == 0x9407
    then Instr.ror
    else if drd_msk op == 0x0800
    then Instr.sbc
    else if imm_msk op == 0x4000
    then Instr.sbci
    else if drd_msk op == 0x9700
    then Instr.sbiw
    else if imm_msk op == 0x6000
    then Instr.sbr
    else if lsb_msk op == 0xfc00
    then Instr.sbrc
    else if lsb_msk op == 0xfe00
    then Instr.sbrs
    else if drs_msk op == 0xef0f
    then Instr.ser
    else if ldd_msk op == 0x920c
    then Instr.stdx
    else if ldd_msk op == 0x9208
    then Instr.stdy
    else if drs_msk op == 0x9200
    then Instr.sts
    else if drd_msk op == 0x1800
    then Instr.sub
    else if imm_msk op == 0x5000
    then Instr.subi
    else if drs_msk op == 0x9402
    then Instr.swap
    else Instr.unrecognised

unfoldable pub decode_lds_on : ℕ → Instr
unfolding decode_ror_on
decode_lds_on op =
    if drs_msk op == 0x9000
    then Instr.lds
    else if drd_msk op == 0x0c00
    then Instr.lsl
    else if drs_msk op == 0x9406
    then Instr.lsr
    else if drd_msk op == 0x2c00
    then Instr.mov
    else if drd_msk op == 0x0100
    then Instr.movw
    else if drd_msk op == 0x9c00
    then Instr.mul
    else if drd_msk op == 0x0200
    then Instr.muls
    else if drs_msk op == 0x9401
    then Instr.neg
    else if imp_msk op == 0x0000
    then Instr.nop
    else if drd_msk op == 0x2800
    then Instr.or
    else if imm_msk op == 0x6000
    then Instr.ori
    else if drs_msk op == 0x9203
    then Instr.pop
    else if drs_msk op == 0x920f
    then Instr.push
    else if imp_msk op == 0x9508
    then Instr.ret
    else decode_ror_on op

unfoldable pub decode_com_on : ℕ → Instr
unfolding decode_lds_on
decode_com_on op =
    if drs_msk op == 0x9400
    then Instr.com_reg
    else if drd_msk op == 0x1400
    then Instr.cp
    else if drd_msk op == 0x0400
    then Instr.cpc
    else if imm_msk op == 0x3000
    then Instr.cpi
    else if drd_msk op == 0x1000
    then Instr.cpse
    else if drs_msk op == 0x940a
    then Instr.dec
    else if drd_msk op == 0x2400
    then Instr.eor
    else if imp_msk op == 0x9509
    then Instr.icall
    else if imp_msk op == 0x9409
    then Instr.ijmp
    else if drs_msk op == 0x9403
    then Instr.inc
    else if imp_msk op == 0x940c
    then Instr.jmp
    else if ldd_msk op == 0x900c
    then Instr.lddx
    else if ldd_msk op == 0x9008
    then Instr.lddy
    else if imm_msk op == 0xe000
    then Instr.ldi
    else decode_lds_on op

unfoldable pub decode : ℕ → Instr
unfolding decode_com_on
decode op =
    if drd_msk op == 0x1c00
    then Instr.adc
    else if drd_msk op == 0x0c00
    then Instr.add
    else if imp_msk op == 0x9598
    then Instr.abrk
    else if drd_msk op == 0x9600
    then Instr.adiw
    else if drd_msk op == 0x2000
    then Instr.and
    else if imm_msk op == 0x7000
    then Instr.andi
    else if drs_msk op == 0x9405
    then Instr.asr
    else if bit_msk op == 0x9488
    then Instr.bclr
    else if lsb_msk op == 0xf800
    then Instr.bld
    else if brch_msk op == 0xf400
    then Instr.branchc
    else if brch_msk op == 0xf000
    then Instr.branchs
    else if bit_msk op == 0x9408
    then Instr.bset
    else if lsb_msk op == 0xfa00
    then Instr.bst
    else if imm_msk op == 0xc000
    then Instr.cbr
    else if imp_msk op == 0x940e
    then Instr.call
    else decode_com_on op
