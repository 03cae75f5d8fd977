-- ===== src/Tests/Emulator.antt =====
-- The statements about src/execute.c and src/run_misc.c at concrete machines.
use mikode.Handlers.Fields.{imm_byte}
use mikode.Prelude.{true, [], ◌∷◌}
use mikode.Tests.{machine, machine-IsValid}
use mikode.Machine.Memory.{check_32}
use mikode.Handlers.Add.{mul}
use mikode.Handlers.Add.Product.{mul-product}
use mikode.Handlers.Flow.{sbrs, sbrc}
use mikode.Handlers.Flow.Skip.{sbrs-past}
use mikode.Decode.Sizes.{has_operand, check_32-decode, decode-shadowed}
use mikode.Dispatch.Stops.{ends_pair}
use mikode.Execute.Stops.{current, stopped-cause}
use mikode.Decode.{Instr, decode_com_on, decode_lds_on, decode_ror_on}
use mikode.Prelude.{ℕ, ◌+◌, ◌-◌, ◌*◌, ◌/◌, ◌%◌, ◌<◌, ◌≤◌, ◌≡◌, refl, arith, ◌↔◌, ◌⊎◌, ◌≢◌, not}
use mikode.Prelude.{Bool, false, ◌==◌, ltb}
use mikode.Machine.{Machine, update}
use mikode.Machine.Flags.{status, digit}
use mikode.Machine.Valid.{IsValid}
use mikode.Machine.Memory.{push_val, pop_val, dec_reg, word_at}
use mikode.Machine.Memory.Laws.{pop-push_val, pair, pair-dec_reg}
use mikode.Prelude.Bits.{bit}
use mikode.Handlers.Fields.{field_d, field_r, field_bit, imm_byte}
use mikode.Handlers.Data.{ldi}
use mikode.Handlers.Add.{add, adc}
use mikode.Handlers.Add.Laws.{IsSum, add-IsSum}
use mikode.Handlers.Add.Pair.{add-adc-pair}
use mikode.Handlers.Sub.{cp, sub, sbc}
use mikode.Handlers.Sub.Laws.{cp-same_sign}
use mikode.Handlers.Sub.Difference.{sub-carry, sub-zero, sub-sbc-pair}
use mikode.Handlers.Flow.{abrk, branchs, branchc, call, ret}
use mikode.Handlers.Flow.Laws.{KeepsFrame, ret-call}
use mikode.Handlers.Flow.Compare.{landing, branch-cp}
use mikode.Decode.{decode}
use mikode.Dispatch.{dispatch}
use mikode.Prelude.Holds.{gives}
use mikode.Prelude.{Option, some}
use mikode.Execute.{finished, Exit, round, loop, after_round}
use mikode.Execute.Reach.{IoKeepsValid, LastTurn}
use mikode.Tests.{clear_machine, clear_machine-IsValid, carry_machine, carry_machine-IsValid}
use mikode.Tests.{program_machine}

-- A `run_io` that counts its calls and touches nothing.
abbrev count_calls : ℕ → ℕ → Machine → Option (Bool × ℕ × Machine)
count_calls op w m = some (false, w + 1, m)

count_calls-keeps : IoKeepsValid count_calls
count_calls-keeps op w m valid = gives valid

abbrev program_end : Machine
program_end = record program_machine { ip = 4; reg = update program_machine.reg 1 7 }

program_run : loop count_calls 2 0 program_machine ≡ finished Exit.stopped 1 program_end
unfolding loop round after_round decode dispatch word_at ldi abrk field_d imm_byte
program_run = refl

add-IsSum_example : IsSum 0 200 100 0 clear_machine (add 0x0c01 clear_machine).1
unfolding field_d field_r bit
add-IsSum_example = add-IsSum 0x0c01 clear_machine clear_machine-IsValid

add-adc-pair_example :
    let m' = (adc 0x1c13 (add 0x0c02 clear_machine).1).1 in
    (m'.reg 1 * 256 + m'.reg 0 ≡ (100 * 256 + 200 + (2 * 256 + 1)) % 65536)
    × ((status m'.sreg).c ≡ (100 * 256 + 200 + (2 * 256 + 1)) / 65536)
unfolding field_d field_r bit
add-adc-pair_example =
    add-adc-pair 0x0c02 0x1c13 clear_machine clear_machine-IsValid (ground arith) (ground arith)

sub-carry_example :
    ((status (sub 0x1841 carry_machine).1.sreg).c ≡ digit (ltb 100 100))
    ↔ (((status carry_machine.sreg).c ≡ 0) ⊎ (carry_machine.reg 4 ≢ carry_machine.reg 1))
unfolding field_d field_r bit
sub-carry_example = sub-carry 0x1841 carry_machine carry_machine-IsValid

sub-zero_example :
    ((status (sub 0x1841 clear_machine).1.sreg).z ≡ 1)
    ↔ (((status clear_machine.sreg).z ≡ 1) × (clear_machine.reg 4 ≡ clear_machine.reg 1))
unfolding field_d field_r
sub-zero_example = sub-zero 0x1841 clear_machine clear_machine-IsValid

sub-sbc-pair_example :
    let m' = (sbc 0x0813 (sub 0x1802 clear_machine).1).1 in
    (m'.reg 1 * 256 + m'.reg 0 ≡ (100 * 256 + 200 + 65536 - (2 * 256 + 1)) % 65536)
    × ((status m'.sreg).c ≡ digit (ltb (100 * 256 + 200) (2 * 256 + 1)))
unfolding field_d field_r bit
sub-sbc-pair_example =
    sub-sbc-pair 0x1802 0x0813 clear_machine clear_machine-IsValid refl (ground arith)
      (ground arith)

-- Register 2 holds 1 and register 3 holds 2.
cp-same_sign_example : (status (cp 0x1423 clear_machine).1.sreg).s ≡ 0
unfolding field_d field_r bit
cp-same_sign_example = cp-same_sign 0x1423 clear_machine clear_machine-IsValid refl

branch-cp_example :
    let m' = (cp 0x1401 clear_machine).1 in
    ((branchs 0xf001 m').1.ip ≡ landing (200 == 100) 0xf001 18)
    × ((branchc 0xf401 m').1.ip ≡ landing (not (200 == 100)) 0xf401 18)
    × ((branchs 0xf000 m').1.ip ≡ landing (ltb 200 100) 0xf000 18)
    × ((branchc 0xf400 m').1.ip ≡ landing (not (ltb 200 100)) 0xf400 18)
unfolding field_d field_r field_bit
branch-cp_example =
    branch-cp 0x1401 0xf001 0xf401 0xf000 0xf400 clear_machine clear_machine-IsValid refl refl refl
      refl

pop-push_val_example :
    pop_val (push_val 9 clear_machine)
    ≡ (9, record clear_machine { prog = update clear_machine.prog 0xff00 9 })
pop-push_val_example = pop-push_val 9 clear_machine clear_machine-IsValid (omega arith)

pair-dec_reg_example : (pair (dec_reg 2 clear_machine) 2 ≡ (2 * 256 + 1 + 65535) % 65536) ↔ (2 ≤ 1)
pair-dec_reg_example = pair-dec_reg 2 clear_machine clear_machine-IsValid

-- A call at 16 with its return address on the stack.
abbrev in_call : ℕ → Machine → Machine
in_call a m = record m { sp = 0xff00 - 2; prog = update (update m.prog 0xff00 a) (0xff00 - 1) 0 }

framed : (a : ℕ) → a < 256 → KeepsFrame 0xff00 a (in_call a clear_machine)
framed a h = record { pointer = refl; high = ground arith; low = ground arith }

ret-call_example :
    let called = (call 0x940e 0x0200 clear_machine).1 in
    (called.ip ≡ 0x0200)
    × KeepsFrame 0xff00 20 called
    × ((ret 0x9508 (in_call 20 clear_machine)).1
        ≡ record (in_call 20 clear_machine) { ip = 20; sp = 0xff00 })
ret-call_example =
    ret-call 0x940e 0x0200 0x9508 clear_machine (in_call 20 clear_machine) clear_machine-IsValid
      (omega arith) (framed 20 (omega arith))

stopped-cause_example :
    (last : LastTurn count_calls 0 program_machine Exit.stopped 1 program_end) × ((decode
          (current count_calls last.machine)
        ≡ Instr.abrk)
      ⊎ ((decode (current count_calls last.machine) ≡ Instr.movw)
          × (ends_pair (current count_calls last.machine) ≡ true)))
stopped-cause_example = stopped-cause count_calls 2 0 program_machine 1 program_end program_run

-- Bit 3 of register 0 is set, and a four-byte `sts` stands behind the skip.
abbrev skip_machine : Machine
skip_machine = machine 0 0xff00 0 (200 ∷ 200 ∷ []) (0x03 ∷ 0xfe ∷ 0x00 ∷ 0x92 ∷ 0x00 ∷ 0xc0 ∷ [])

skip_machine-IsValid : IsValid skip_machine
skip_machine-IsValid =
    machine-IsValid 0 0xff00 0 (200 ∷ 200 ∷ []) (0x03 ∷ 0xfe ∷ 0x00 ∷ 0x92 ∷ 0x00 ∷ 0xc0 ∷ [])
      (omega arith) (omega arith) (omega arith) refl refl

sbrs-past_example :
    ((sbrs 0xfe03 skip_machine).1 ≡ record skip_machine { ip = 6 })
    × ((sbrc 0xfe03 skip_machine).1 ≡ record skip_machine { ip = 2 })
unfolding field_bit field_d bit word_at decode decode_com_on decode_lds_on decode_ror_on
sbrs-past_example = sbrs-past 0xfe03 skip_machine

mul-product_example :
    (pair (mul 0x9c01 clear_machine).1 0 ≡ 20000)
    × (status (mul 0x9c01 clear_machine).1.sreg ≡ record (status 0) { c = 0; z = 0 })
    × ((mul 0x9c01 clear_machine).1.ip ≡ 18)
unfolding field_r field_d
mul-product_example = mul-product 0x9c01 clear_machine clear_machine-IsValid

check_32-decode_example : check_32 skip_machine ≡ has_operand (decode (word_at skip_machine 0))
check_32-decode_example = check_32-decode skip_machine

decode-shadowed_example :
    (decode 0x0c11 ≢ Instr.lsl) × (decode 0x0c11 ≢ Instr.sbr) × (decode 0x0c11 ≢ Instr.ser)
decode-shadowed_example = decode-shadowed 0x0c11 (omega arith)
