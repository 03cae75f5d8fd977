-- ===== src/Dispatch/Valid.antt =====
-- Whatever the opcode, the handler that `execute` calls keeps the ranges of the fields.
use mikode.Prelude.{ℕ, ◌+◌, ◌<◌, Option, some, none}
use mikode.Machine.{Machine, Reply}
use mikode.Machine.Valid.{IsValid}
use mikode.Handlers.Valid.Control.{word_at-lt}
use mikode.Decode.{Instr}
use mikode.Dispatch.{dispatch, operand_word}
use mikode.Handlers.Valid.Alu.{
  adc-IsValid, add-IsValid, adiw-IsValid, and-IsValid, andi-IsValid, asr-IsValid,
}
use mikode.Handlers.Valid.Alu.{
  bclr-IsValid, bld-IsValid, bset-IsValid, bst-IsValid, cbr-IsValid, com_reg-IsValid,
}
use mikode.Handlers.Valid.Alu.{
  cp-IsValid, cpc-IsValid, cpi-IsValid, dec-IsValid, eor-IsValid, inc-IsValid,
}
use mikode.Handlers.Valid.Alu.{
  lsl-IsValid, lsr-IsValid, mul-IsValid, muls-IsValid, neg-IsValid, or-IsValid,
}
use mikode.Handlers.Valid.Alu.{
  ori-IsValid, ror-IsValid, sbc-IsValid, sbci-IsValid, sbiw-IsValid, sbr-IsValid,
}
use mikode.Handlers.Valid.Alu.{ser-IsValid, sub-IsValid, subi-IsValid, swap-IsValid}
use mikode.Handlers.Valid.Control.{
  abrk-IsValid, branchc-IsValid, branchs-IsValid, call-IsValid, cpse-IsValid, icall-IsValid,
}
use mikode.Handlers.Valid.Control.{
  ijmp-IsValid, jmp-IsValid, lddx-IsValid, lddy-IsValid, ldi-IsValid, lds-IsValid,
}
use mikode.Handlers.Valid.Control.{
  mov-IsValid, movw-IsValid, nop-IsValid, pop-IsValid, push-IsValid, ret-IsValid,
}
use mikode.Handlers.Valid.Control.{
  sbrc-IsValid, sbrs-IsValid, stdx-IsValid, stdy-IsValid, sts-IsValid,
}

operand_word-lt : (m : Machine) → operand_word m < 65536
operand_word-lt m = word_at-lt m (m.ip + 2)

-- What a dispatched handler leaves, if the opcode has one.
abbrev pub AllReplies : (Machine → Type 0) → Option Reply → Type 0
AllReplies P none = Unit
AllReplies P (some r) = P r.1

pub dispatch-IsValid :
    (i : Instr) (op : ℕ) {m : Machine} → IsValid m → AllReplies IsValid (dispatch i op m)
unfolding dispatch
dispatch-IsValid Instr.adc op valid = adc-IsValid op valid
dispatch-IsValid Instr.add op valid = add-IsValid op valid
dispatch-IsValid Instr.abrk op valid = abrk-IsValid op valid
dispatch-IsValid Instr.adiw op valid = adiw-IsValid op valid
dispatch-IsValid Instr.and op valid = and-IsValid op valid
dispatch-IsValid Instr.andi op valid = andi-IsValid op valid
dispatch-IsValid Instr.asr op valid = asr-IsValid op valid
dispatch-IsValid Instr.bclr op valid = bclr-IsValid op valid
dispatch-IsValid Instr.bld op valid = bld-IsValid op valid
dispatch-IsValid Instr.branchc op valid = branchc-IsValid op valid
dispatch-IsValid Instr.branchs op valid = branchs-IsValid op valid
dispatch-IsValid Instr.bset op valid = bset-IsValid op valid
dispatch-IsValid Instr.bst op valid = bst-IsValid op valid
dispatch-IsValid Instr.cbr op valid = cbr-IsValid op valid
dispatch-IsValid Instr.call op {m} valid =
    call-IsValid op valid (operand_word m) (operand_word-lt m)
dispatch-IsValid Instr.com_reg op valid = com_reg-IsValid op valid
dispatch-IsValid Instr.cp op valid = cp-IsValid op valid
dispatch-IsValid Instr.cpc op valid = cpc-IsValid op valid
dispatch-IsValid Instr.cpi op valid = cpi-IsValid op valid
dispatch-IsValid Instr.cpse op valid = cpse-IsValid op valid
dispatch-IsValid Instr.dec op valid = dec-IsValid op valid
dispatch-IsValid Instr.eor op valid = eor-IsValid op valid
dispatch-IsValid Instr.icall op valid = icall-IsValid op valid
dispatch-IsValid Instr.ijmp op valid = ijmp-IsValid op valid
dispatch-IsValid Instr.inc op valid = inc-IsValid op valid
dispatch-IsValid Instr.jmp op {m} valid = jmp-IsValid op valid (operand_word m) (operand_word-lt m)
dispatch-IsValid Instr.lddx op valid = lddx-IsValid op valid
dispatch-IsValid Instr.lddy op valid = lddy-IsValid op valid
dispatch-IsValid Instr.ldi op valid = ldi-IsValid op valid
dispatch-IsValid Instr.lds op valid = lds-IsValid op valid _
dispatch-IsValid Instr.lsl op valid = lsl-IsValid op valid
dispatch-IsValid Instr.lsr op valid = lsr-IsValid op valid
dispatch-IsValid Instr.mov op valid = mov-IsValid op valid
dispatch-IsValid Instr.movw op valid = movw-IsValid op valid
dispatch-IsValid Instr.mul op valid = mul-IsValid op valid
dispatch-IsValid Instr.muls op valid = muls-IsValid op valid
dispatch-IsValid Instr.neg op valid = neg-IsValid op valid
dispatch-IsValid Instr.nop op valid = nop-IsValid op valid
dispatch-IsValid Instr.or op valid = or-IsValid op valid
dispatch-IsValid Instr.ori op valid = ori-IsValid op valid
dispatch-IsValid Instr.pop op valid = pop-IsValid op valid
dispatch-IsValid Instr.push op valid = push-IsValid op valid
dispatch-IsValid Instr.ret op valid = ret-IsValid op valid
dispatch-IsValid Instr.ror op valid = ror-IsValid op valid
dispatch-IsValid Instr.sbc op valid = sbc-IsValid op valid
dispatch-IsValid Instr.sbci op valid = sbci-IsValid op valid
dispatch-IsValid Instr.sbiw op valid = sbiw-IsValid op valid
dispatch-IsValid Instr.sbr op valid = sbr-IsValid op valid
dispatch-IsValid Instr.sbrc op valid = sbrc-IsValid op valid
dispatch-IsValid Instr.sbrs op valid = sbrs-IsValid op valid
dispatch-IsValid Instr.ser op valid = ser-IsValid op valid
dispatch-IsValid Instr.stdx op valid = stdx-IsValid op valid
dispatch-IsValid Instr.stdy op valid = stdy-IsValid op valid
dispatch-IsValid Instr.sts op valid = sts-IsValid op valid _
dispatch-IsValid Instr.sub op valid = sub-IsValid op valid
dispatch-IsValid Instr.subi op valid = subi-IsValid op valid
dispatch-IsValid Instr.swap op valid = swap-IsValid op valid
dispatch-IsValid Instr.unrecognised op valid = tt
