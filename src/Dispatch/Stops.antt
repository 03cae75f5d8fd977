-- ===== src/Dispatch/Stops.antt =====
-- Which handlers of src/execute.c return an error, which ends the loop of `execute`.
use mikode.Prelude.{
  ℕ, ◌<◌, ◌≡◌, refl, arith, ◌⊎◌, inl, inr, ◌||◌, Bool, true, Option, some, none, ltb, if◌then◌else◌,
  Bool-cases, not, truth, bit_and, ◌==◌, ◌&&◌,
}
use mikode.Machine.{Machine, Reply}
use mikode.Decode.{Instr}
use mikode.Decode.Index.{index, index_sound}
use mikode.Machine.{flag_z}
use mikode.Dispatch.{dispatch}
use mikode.Handlers.Fields.{field_d, field_r}
use mikode.Handlers.Flow.{abrk}
use mikode.Handlers.Data.{movw}
use mikode.Handlers.Add.{adc, add, adiw, inc, mul, muls}
use mikode.Handlers.Bits.{bclr, bset, bld, bst}
use mikode.Handlers.Data.{ldi, mov, pop, push, lds, sts, lddx, lddy, stdx, stdy}
use mikode.Handlers.Flow.{branchs, branchc, nop, jmp, ijmp, call, icall, ret, sbrc, sbrs}
use mikode.Handlers.Logic.{and, andi, cbr, com_reg, eor, or, ori, sbr, ser, swap}
use mikode.Handlers.Shift.{asr, lsl, lsr, ror}
use mikode.Handlers.Sub.{cp, cpc, cpi, cpse, sub, subi, sbc, sbci, sbiw, dec, neg}

-- The error of a reply, 0 if the opcode has no handler.
abbrev pub error_of : Option Reply → ℕ
error_of none = 0
error_of (some r) = r.0

-- Whether `movw` is given a register that has no successor.
abbrev pub ends_pair : ℕ → Bool
ends_pair op = ltb 14 (field_r op) || ltb 14 (field_d op)

-- The errors that the handlers return.
unfoldable pub error_code : Instr → ℕ → ℕ
error_code i op =
    if index i == index Instr.abrk
    then 1
    else if (index i == index Instr.movw) && ends_pair op
    then 1
    else 0

movw-error : (op : ℕ) (m : Machine) → (movw op m).0 ≡ error_code Instr.movw op
unfolding movw error_code index
movw-error op m = elim (Bool-cases (ends_pair op)) [ inl e ↦ rw e refl | inr e ↦ rw e refl ]

cpse-error : (op : ℕ) (m : Machine) → (cpse op m).0 ≡ 0
unfolding cpse
cpse-error op m = elim (Bool-cases (not (truth (bit_and (cp op m).1.sreg flag_z)))) [
  | inl e ↦ rw e refl
  | inr e ↦ rw e refl
]

-- A handler's error is 1 for the break, 1 for `movw` of a pair that ends the registers, and else 0.
pub dispatch-error :
    (i : Instr) (op : ℕ) (m : Machine) → error_of (dispatch i op m) ≡ error_code i op
unfolding dispatch error_code index abrk adc add adiw inc mul muls bclr bset bld bst ldi mov pop
    push lds sts lddx lddy stdx stdy branchs branchc nop jmp ijmp call icall ret sbrc sbrs and andi
    cbr com_reg eor or ori sbr ser swap asr lsl lsr ror cp cpc cpi sub subi sbc sbci sbiw dec neg
dispatch-error Instr.movw op m = movw-error op m
dispatch-error Instr.adc op m = refl
dispatch-error Instr.add op m = refl
dispatch-error Instr.abrk op m = refl
dispatch-error Instr.adiw op m = refl
dispatch-error Instr.and op m = refl
dispatch-error Instr.andi op m = refl
dispatch-error Instr.asr op m = refl
dispatch-error Instr.bclr op m = refl
dispatch-error Instr.bld op m = refl
dispatch-error Instr.branchc op m = refl
dispatch-error Instr.branchs op m = refl
dispatch-error Instr.bset op m = refl
dispatch-error Instr.bst op m = refl
dispatch-error Instr.cbr op m = refl
dispatch-error Instr.call op m = refl
dispatch-error Instr.com_reg op m = refl
dispatch-error Instr.cp op m = refl
dispatch-error Instr.cpc op m = refl
dispatch-error Instr.cpi op m = refl
dispatch-error Instr.cpse op m = cpse-error op m
dispatch-error Instr.dec op m = refl
dispatch-error Instr.eor op m = refl
dispatch-error Instr.icall op m = refl
dispatch-error Instr.ijmp op m = refl
dispatch-error Instr.inc op m = refl
dispatch-error Instr.jmp op m = refl
dispatch-error Instr.lddx op m = refl
dispatch-error Instr.lddy op m = refl
dispatch-error Instr.ldi op m = refl
dispatch-error Instr.lds op m = refl
dispatch-error Instr.lsl op m = refl
dispatch-error Instr.lsr op m = refl
dispatch-error Instr.mov op m = refl
dispatch-error Instr.mul op m = refl
dispatch-error Instr.muls op m = refl
dispatch-error Instr.neg op m = refl
dispatch-error Instr.nop op m = refl
dispatch-error Instr.or op m = refl
dispatch-error Instr.ori op m = refl
dispatch-error Instr.pop op m = refl
dispatch-error Instr.push op m = refl
dispatch-error Instr.ret op m = refl
dispatch-error Instr.ror op m = refl
dispatch-error Instr.sbc op m = refl
dispatch-error Instr.sbci op m = refl
dispatch-error Instr.sbiw op m = refl
dispatch-error Instr.sbr op m = refl
dispatch-error Instr.sbrc op m = refl
dispatch-error Instr.sbrs op m = refl
dispatch-error Instr.ser op m = refl
dispatch-error Instr.stdx op m = refl
dispatch-error Instr.stdy op m = refl
dispatch-error Instr.sts op m = refl
dispatch-error Instr.sub op m = refl
dispatch-error Instr.subi op m = refl
dispatch-error Instr.swap op m = refl
dispatch-error Instr.unrecognised op m = refl

-- The instructions that return an error.
pub error_code-cause :
    (i : Instr) (op : ℕ)
    → 0 < error_code i op
    → (i ≡ Instr.abrk) ⊎ ((i ≡ Instr.movw) × (ends_pair op ≡ true))
unfolding error_code
error_code-cause i op h = elim (Bool-cases (index i == index Instr.abrk)) [
  | inl e ↦ inl (index_sound i Instr.abrk e)
  | inr e ↦ elim (Bool-cases (index i == index Instr.movw)) [
    | inl e' ↦ inr (index_sound i Instr.movw e', ground arith)
    | inr e' ↦ absurd (ground arith)
  ]
]
