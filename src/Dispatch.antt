-- ===== src/Dispatch.antt =====
-- The calls that the ladder of `execute` in src/execute.c makes, and the loop round it.
pub mod Valid
pub mod Stops
use mikode.Prelude.{ℕ, ◌+◌, Option, some, none}
use mikode.Machine.{Machine, Reply}
use mikode.Machine.Memory.{word_at}
use mikode.Decode.{Instr}
use mikode.Handlers.Add.{adc, add, adiw, inc, mul, muls}
use mikode.Handlers.Bits.{bclr, bset, bld, bst}
use mikode.Handlers.Data.{ldi, mov, movw, pop, push, lds, sts, lddx, lddy, stdx, stdy}
use mikode.Handlers.Flow.{branchs, branchc, abrk, nop, jmp, ijmp, call, icall, ret, sbrc, sbrs}
use mikode.Handlers.Logic.{and, andi, cbr, com_reg, eor, or, ori, sbr, ser, swap}
use mikode.Handlers.Shift.{asr, lsl, lsr, ror}
use mikode.Handlers.Sub.{cp, cpc, cpi, cpse, sub, subi, sbc, sbci, sbiw, dec, neg}

-- `op2`, the word behind the opcode
abbrev pub operand_word : Machine → ℕ
operand_word m = word_at m (m.ip + 2)

-- The handler's call; `none` is an opcode that is not recognised.
unfoldable pub dispatch : Instr → ℕ → Machine → Option Reply
dispatch Instr.adc op m = some (adc op m)
dispatch Instr.add op m = some (add op m)
dispatch Instr.abrk op m = some (abrk op m)
dispatch Instr.adiw op m = some (adiw op m)
dispatch Instr.and op m = some (and op m)
dispatch Instr.andi op m = some (andi op m)
dispatch Instr.asr op m = some (asr op m)
dispatch Instr.bclr op m = some (bclr op m)
dispatch Instr.bld op m = some (bld op m)
dispatch Instr.branchc op m = some (branchc op m)
dispatch Instr.branchs op m = some (branchs op m)
dispatch Instr.bset op m = some (bset op m)
dispatch Instr.bst op m = some (bst op m)
dispatch Instr.cbr op m = some (cbr op m)
dispatch Instr.call op m = some (call op (operand_word m) m)
dispatch Instr.com_reg op m = some (com_reg op m)
dispatch Instr.cp op m = some (cp op m)
dispatch Instr.cpc op m = some (cpc op m)
dispatch Instr.cpi op m = some (cpi op m)
dispatch Instr.cpse op m = some (cpse op m)
dispatch Instr.dec op m = some (dec op m)
dispatch Instr.eor op m = some (eor op m)
dispatch Instr.icall op m = some (icall op m)
dispatch Instr.ijmp op m = some (ijmp op m)
dispatch Instr.inc op m = some (inc op m)
dispatch Instr.jmp op m = some (jmp op (operand_word m) m)
dispatch Instr.lddx op m = some (lddx op m)
dispatch Instr.lddy op m = some (lddy op m)
dispatch Instr.ldi op m = some (ldi op m)
dispatch Instr.lds op m = some (lds op (operand_word m) m)
dispatch Instr.lsl op m = some (lsl op m)
dispatch Instr.lsr op m = some (lsr op m)
dispatch Instr.mov op m = some (mov op m)
dispatch Instr.movw op m = some (movw op m)
dispatch Instr.mul op m = some (mul op m)
dispatch Instr.muls op m = some (muls op m)
dispatch Instr.neg op m = some (neg op m)
dispatch Instr.nop op m = some (nop op m)
dispatch Instr.or op m = some (or op m)
dispatch Instr.ori op m = some (ori op m)
dispatch Instr.pop op m = some (pop op m)
dispatch Instr.push op m = some (push op m)
dispatch Instr.ret op m = some (ret op m)
dispatch Instr.ror op m = some (ror op m)
dispatch Instr.sbc op m = some (sbc op m)
dispatch Instr.sbci op m = some (sbci op m)
dispatch Instr.sbiw op m = some (sbiw op m)
dispatch Instr.sbr op m = some (sbr op m)
dispatch Instr.sbrc op m = some (sbrc op m)
dispatch Instr.sbrs op m = some (sbrs op m)
dispatch Instr.ser op m = some (ser op m)
dispatch Instr.stdx op m = some (stdx op m)
dispatch Instr.stdy op m = some (stdy op m)
dispatch Instr.sts op m = some (sts op (operand_word m) m)
dispatch Instr.sub op m = some (sub op m)
dispatch Instr.subi op m = some (subi op m)
dispatch Instr.swap op m = some (swap op m)
dispatch Instr.unrecognised op m = none
