-- ===== src/Handlers/Valid/Control.antt =====
-- The branches, calls, skips and moves of src/execute.c keep the ranges.
use mikode.Prelude.{ℕ, ◌+◌, ◌<◌, arith, Bool, true, false, ◌||◌, not, u8, sub16}
use mikode.Prelude.{◌<<◌, ◌==◌, ltb, truth, bit_and, if◌then◌else◌}
use mikode.Prelude.Bits.{bit_or-lt}
use mikode.Machine.{Machine, Reply, flag_z}
use mikode.Machine.Memory.{word_at, check_32}
use mikode.Machine.Valid.{IsValid, u8-lt, u16-lt, set_reg-IsValid, set_prog-IsValid, ip-IsValid}
use mikode.Machine.Valid.{advance-IsValid, pop_val-lt, pop_val-IsValid, push_val-IsValid}
use mikode.Machine.Valid.{inc_reg-IsValid, dec_reg-IsValid, if-IsValid}
use mikode.Handlers.Fields.{field_r, field_d, field_bit, field_offset}
use mikode.Handlers.Valid.Alu.{imm_byte-lt, cp-IsValid}
use mikode.Handlers.Sub.{cp, cpse}
use mikode.Handlers.Flow.{branch_to, branch_if, branchs, branchc, abrk, nop, jmp, ijmp, push_ip}
use mikode.Handlers.Flow.{call, icall, ret, skip_if, sbrc, sbrs}
use mikode.Handlers.Data.{ldi, mov, movw, pop, push, lds, sts, pointer, load_by, store_by}
use mikode.Handlers.Data.{lddx, lddy, stdx, stdy}

pub word_at-lt : (m : Machine) (a : ℕ) → word_at m a < 65536
unfolding word_at
word_at-lt m a = u16-lt _

branch_to-lt : (k ip : ℕ) → branch_to k ip < 65536
unfolding branch_to
branch_to-lt k ip = ground arith

if_reply-IsValid :
    (b : Bool) (x y : Reply) → IsValid x.1 → IsValid y.1 → IsValid (if b then x else y).1
if_reply-IsValid true x y p q = p
if_reply-IsValid false x y p q = q

module _ {m : Machine} (valid : IsValid m) where
  open valid use {reg_fits, prog_fits}

  branch_if-IsValid : (taken : Bool) (k : ℕ) → IsValid (branch_if taken k m)
  unfolding branch_if
  branch_if-IsValid taken k =
      if-IsValid taken (ip-IsValid valid _ (branch_to-lt k m.ip)) (advance-IsValid valid 2)

  push_ip-IsValid : IsValid (push_ip m)
  unfolding push_ip
  push_ip-IsValid = push_val-IsValid (push_val-IsValid valid _ (u8-lt _)) _ (u8-lt _)

  skip_if-IsValid : (taken : Bool) → IsValid (skip_if taken m)
  unfolding skip_if
  skip_if-IsValid taken =
      let once = advance-IsValid valid 2 in
      let further = if-IsValid _ (advance-IsValid once 2) once in
      advance-IsValid (if-IsValid taken further valid) 2

  load_by-IsValid : (low op : ℕ) → IsValid (load_by low op m)
  unfolding load_by
  load_by-IsValid low op =
      let first = set_reg-IsValid valid (field_d op) _ (prog_fits (pointer low m)) in
      let down = dec_reg-IsValid valid low in
      let mode = bit_and op 0x0003 in
      let earlier = sub16 (pointer low m) 1 in
      if-IsValid (mode == 0) first (
        if-IsValid (mode == 1) (inc_reg-IsValid first low)
          (if-IsValid (mode == 2) (set_reg-IsValid down (field_d op) _ (prog_fits earlier)) valid))

  store_by-IsValid : (low op : ℕ) → IsValid (store_by low op m)
  unfolding store_by
  store_by-IsValid low op =
      let first = set_prog-IsValid valid (pointer low m) _ (reg_fits (field_d op)) in
      let down = dec_reg-IsValid valid low in
      let mode = bit_and op 0x0003 in
      let earlier = sub16 (pointer low m) 1 in
      if-IsValid (mode == 0) first (
        if-IsValid (mode == 1) (inc_reg-IsValid first low) (
          if-IsValid (mode == 2) (set_prog-IsValid down earlier _ (down.reg_fits (field_d op)))
            valid))

module _ (op : ℕ) {m : Machine} (valid : IsValid m) where
  open valid use {reg_fits, prog_fits}

  pub branchs-IsValid : IsValid (branchs op m).1
  unfolding branchs
  branchs-IsValid =
      branch_if-IsValid valid (truth (bit_and (1 << field_bit op) m.sreg)) (u8 (field_offset op))

  pub branchc-IsValid : IsValid (branchc op m).1
  unfolding branchc
  branchc-IsValid =
      branch_if-IsValid valid (not (truth (bit_and (1 << field_bit op) m.sreg)))
        (u8 (field_offset op))

  pub abrk-IsValid : IsValid (abrk op m).1
  unfolding abrk
  abrk-IsValid = advance-IsValid valid 2

  pub nop-IsValid : IsValid (nop op m).1
  unfolding nop
  nop-IsValid = advance-IsValid valid 2

  pub jmp-IsValid : (op2 : ℕ) → op2 < 65536 → IsValid (jmp op op2 m).1
  unfolding jmp
  jmp-IsValid op2 h = ip-IsValid valid op2 h

  pub ijmp-IsValid : IsValid (ijmp op m).1
  unfolding ijmp
  ijmp-IsValid = ip-IsValid valid _ (bit_or-lt 16 _ _ (u16-lt _) (omega (arith, reg_fits 14)))

  pub call-IsValid : (op2 : ℕ) → op2 < 65536 → IsValid (call op op2 m).1
  unfolding call
  call-IsValid op2 h = ip-IsValid (push_ip-IsValid (advance-IsValid valid 4)) op2 h

  pub icall-IsValid : IsValid (icall op m).1
  unfolding icall
  icall-IsValid =
      let pushed = push_ip-IsValid (advance-IsValid valid 2) in
      ip-IsValid pushed _ (bit_or-lt 16 _ _ (u16-lt _) (omega (arith, pushed.reg_fits 14)))

  pub ret-IsValid : IsValid (ret op m).1
  unfolding ret
  ret-IsValid =
      let once = pop_val-IsValid valid in
      ip-IsValid (pop_val-IsValid once) _
        (bit_or-lt 16 _ _ (u16-lt _) (omega (arith, pop_val-lt once)))

  pub cpse-IsValid : IsValid (cpse op m).1
  unfolding cpse
  cpse-IsValid =
      let compared = cp-IsValid op valid in
      let over = if-IsValid (check_32 (cp op m).1) (advance-IsValid compared 2) compared in
      if_reply-IsValid (not (truth (bit_and (cp op m).1.sreg flag_z))) _ _ compared
        (advance-IsValid over 2)

  pub sbrc-IsValid : IsValid (sbrc op m).1
  unfolding sbrc
  sbrc-IsValid = skip_if-IsValid valid _

  pub sbrs-IsValid : IsValid (sbrs op m).1
  unfolding sbrs
  sbrs-IsValid = skip_if-IsValid valid _

  pub ldi-IsValid : IsValid (ldi op m).1
  unfolding ldi
  ldi-IsValid = advance-IsValid (set_reg-IsValid valid _ _ (imm_byte-lt op)) 2

  pub mov-IsValid : IsValid (mov op m).1
  unfolding mov
  mov-IsValid = advance-IsValid (set_reg-IsValid valid _ _ (reg_fits _)) 2

  pub movw-IsValid : IsValid (movw op m).1
  unfolding movw
  movw-IsValid =
      let first = set_reg-IsValid valid (field_d op) _ (reg_fits (field_r op)) in
      let second = set_reg-IsValid first (field_d op + 1) _ (first.reg_fits (field_r op + 1)) in
      if_reply-IsValid (ltb 14 (field_r op) || ltb 14 (field_d op)) _ _ valid
        (advance-IsValid second 2)

  pub pop-IsValid : IsValid (pop op m).1
  unfolding pop
  pop-IsValid = advance-IsValid (set_reg-IsValid (pop_val-IsValid valid) _ _ (pop_val-lt valid)) 2

  pub push-IsValid : IsValid (push op m).1
  unfolding push
  push-IsValid = advance-IsValid (push_val-IsValid valid _ (reg_fits _)) 2

  pub lds-IsValid : (op2 : ℕ) → IsValid (lds op op2 m).1
  unfolding lds
  lds-IsValid op2 = advance-IsValid (set_reg-IsValid valid _ _ (prog_fits op2)) 4

  pub sts-IsValid : (op2 : ℕ) → IsValid (sts op op2 m).1
  unfolding sts
  sts-IsValid op2 = advance-IsValid (set_prog-IsValid valid op2 _ (reg_fits _)) 4

  pub lddx-IsValid : IsValid (lddx op m).1
  unfolding lddx
  lddx-IsValid = advance-IsValid (load_by-IsValid valid 12 op) 2

  pub lddy-IsValid : IsValid (lddy op m).1
  unfolding lddy
  lddy-IsValid = advance-IsValid (load_by-IsValid valid 14 op) 2

  pub stdx-IsValid : IsValid (stdx op m).1
  unfolding stdx
  stdx-IsValid = advance-IsValid (store_by-IsValid valid 12 op) 2

  pub stdy-IsValid : IsValid (stdy op m).1
  unfolding stdy
  stdy-IsValid = advance-IsValid (store_by-IsValid valid 14 op) 2
