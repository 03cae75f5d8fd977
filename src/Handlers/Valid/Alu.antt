-- ===== src/Handlers/Valid/Alu.antt =====
-- The arithmetic, logic, shift and bit handlers of src/execute.c keep the ranges.
use mikode.Prelude.{ℕ, ◌+◌, ◌<◌, arith, ◌>>◌, bit_and, false}
use mikode.Prelude.Bits.{bit_and-lt, bit_or-lt, bit_xor-lt, low_byte, high_byte}
use mikode.Machine.{Machine, flag_c, flag_z}
use mikode.Machine.Flags.{put_flag-lt}
use mikode.Machine.Valid.{IsValid, u8-lt, set_reg-IsValid, sreg-IsValid, advance-IsValid}
use mikode.Machine.Valid.{set_flag-IsValid, check_zsnf-IsValid, check_cv-IsValid}
use mikode.Machine.Valid.{check_subf-IsValid, if-IsValid}
use mikode.Handlers.Fields.{field_r, field_d, field_pair, imm_byte}
use mikode.Handlers.Fields.Laws.{imm_byte_lem}
use mikode.Handlers.Add.{add_with, clear_z_if_low, adc, add, adiw, inc, store_product, mul, muls}
use mikode.Handlers.Sub.{compare_with, cp, cpc, cpi, sub_with, sub, subi, sbc, sbci, sbiw, dec, neg}
use mikode.Handlers.Logic.{put_logic, and, andi, cbr, com_reg, eor, or, ori, sbr, ser, swap}
use mikode.Handlers.Shift.{carry_out, overflow_out, shift_flags, asr, lsl, lsr, ror}
use mikode.Handlers.Bits.{bclr, bset, bld, bst}

-- The parts that the handlers share.
pub imm_byte-lt : (op : ℕ) → imm_byte op < 256
imm_byte-lt op = omega (arith, imm_byte_lem op)

module _ {m : Machine} (valid : IsValid m) where
  add_with-IsValid : (d r c : ℕ) → IsValid (add_with d r c m)
  unfolding add_with
  add_with-IsValid d r c =
      check_zsnf-IsValid (set_reg-IsValid (check_cv-IsValid valid _ _ _) d _ (u8-lt _)) _

  compare_with-IsValid : (a b c : ℕ) → IsValid (compare_with a b c m)
  unfolding compare_with
  compare_with-IsValid a b c = check_zsnf-IsValid (check_cv-IsValid valid _ a b) _

  sub_with-IsValid : (d b c : ℕ) → IsValid (sub_with d b c m)
  unfolding sub_with
  sub_with-IsValid d b c = set_reg-IsValid (check_subf-IsValid valid _ _ b) d _ (u8-lt _)

  put_logic-IsValid : (d v : ℕ) → v < 256 → IsValid (put_logic d v m)
  unfolding put_logic
  put_logic-IsValid d v h =
      check_zsnf-IsValid (set_flag-IsValid (set_reg-IsValid valid d v h) _ _) _

  clear_z_if_low-IsValid : (rg : ℕ) → IsValid (clear_z_if_low rg m)
  unfolding clear_z_if_low
  clear_z_if_low-IsValid rg =
      sreg-IsValid valid _ (ground (arith, valid.sreg_fits, put_flag-lt false flag_z m.sreg))

  store_product-IsValid : (p : ℕ) → IsValid (store_product p m)
  unfolding store_product
  store_product-IsValid p =
      let low = set_reg-IsValid valid 0 (bit_and p 0x00ff) (omega (arith, low_byte p)) in
      let both = set_reg-IsValid low 1 (bit_and p 0xff00 >> 8) (omega (arith, high_byte p)) in
      set_flag-IsValid (set_flag-IsValid both _ _) _ _

  carry_out-IsValid : (c v : ℕ) → IsValid (carry_out c v m)
  unfolding carry_out
  carry_out-IsValid c v = sreg-IsValid valid _ (ground (arith, put_flag-lt false flag_c m.sreg))

  overflow_out-IsValid : IsValid (overflow_out m)
  unfolding overflow_out
  overflow_out-IsValid = sreg-IsValid valid _ (u8-lt _)

module _ {m : Machine} (valid : IsValid m) where
  shift_flags-IsValid : (d c v : ℕ) → IsValid (shift_flags d c v m)
  unfolding shift_flags
  shift_flags-IsValid d c v =
      overflow_out-IsValid (check_zsnf-IsValid (carry_out-IsValid valid c v) _)

module _ (op : ℕ) {m : Machine} (valid : IsValid m) where
  open valid use {reg_fits, sreg_fits}

  pub adc-IsValid : IsValid (adc op m).1
  unfolding adc
  adc-IsValid = advance-IsValid (add_with-IsValid valid _ _ _) 2

  pub add-IsValid : IsValid (add op m).1
  unfolding add
  add-IsValid = advance-IsValid (add_with-IsValid valid _ _ 0) 2

  pub adiw-IsValid : IsValid (adiw op m).1
  unfolding adiw
  adiw-IsValid =
      let low = set_reg-IsValid valid (field_pair op) _ (u8-lt _) in
      let high = set_reg-IsValid (check_cv-IsValid low _ _ _) (field_pair op + 1) _ (u8-lt _) in
      advance-IsValid (clear_z_if_low-IsValid (check_zsnf-IsValid high _) _) 2

  pub inc-IsValid : IsValid (inc op m).1
  unfolding inc
  inc-IsValid =
      let stored = set_reg-IsValid (set_flag-IsValid valid _ _) (field_d op) _ (u8-lt _) in
      advance-IsValid (check_zsnf-IsValid stored _) 2

  pub mul-IsValid : IsValid (mul op m).1
  unfolding mul
  mul-IsValid = advance-IsValid (store_product-IsValid valid _) 2

  pub muls-IsValid : IsValid (muls op m).1
  unfolding muls
  muls-IsValid = advance-IsValid (store_product-IsValid valid _) 2

  pub cp-IsValid : IsValid (cp op m).1
  unfolding cp
  cp-IsValid = advance-IsValid (compare_with-IsValid valid _ _ _) 2

  pub cpc-IsValid : IsValid (cpc op m).1
  unfolding cpc
  cpc-IsValid = advance-IsValid (compare_with-IsValid valid _ _ _) 2

  pub cpi-IsValid : IsValid (cpi op m).1
  unfolding cpi
  cpi-IsValid = advance-IsValid (compare_with-IsValid valid _ _ _) 2

  pub sub-IsValid : IsValid (sub op m).1
  unfolding sub
  sub-IsValid = advance-IsValid (sub_with-IsValid valid _ _ _) 2

  pub subi-IsValid : IsValid (subi op m).1
  unfolding subi
  subi-IsValid = advance-IsValid (sub_with-IsValid valid _ _ _) 2

  pub sbc-IsValid : IsValid (sbc op m).1
  unfolding sbc
  sbc-IsValid = advance-IsValid (sub_with-IsValid valid _ _ _) 2

  pub sbci-IsValid : IsValid (sbci op m).1
  unfolding sbci
  sbci-IsValid = advance-IsValid (sub_with-IsValid valid _ _ _) 2

  pub sbiw-IsValid : IsValid (sbiw op m).1
  unfolding sbiw
  sbiw-IsValid =
      let low = set_reg-IsValid valid (field_pair op) _ (u8-lt _) in
      let high = set_reg-IsValid (check_subf-IsValid low _ _ _) (field_pair op + 1) _ (u8-lt _) in
      advance-IsValid (clear_z_if_low-IsValid high _) 2

  pub dec-IsValid : IsValid (dec op m).1
  unfolding dec
  dec-IsValid =
      let stored = set_reg-IsValid (set_flag-IsValid valid _ _) (field_d op) _ (u8-lt _) in
      advance-IsValid (check_zsnf-IsValid stored _) 2

  pub neg-IsValid : IsValid (neg op m).1
  unfolding neg
  neg-IsValid =
      let negated = if-IsValid _ valid (set_reg-IsValid valid (field_d op) _ (u8-lt _)) in
      let flagged = set_flag-IsValid (set_flag-IsValid negated _ _) _ _ in
      advance-IsValid (check_zsnf-IsValid flagged _) 2

  pub and-IsValid : IsValid (and op m).1
  unfolding and
  and-IsValid =
      advance-IsValid (put_logic-IsValid valid _ _ (bit_and-lt 8 _ _ (reg_fits (field_d op)))) 2

  pub andi-IsValid : IsValid (andi op m).1
  unfolding andi
  andi-IsValid =
      advance-IsValid (put_logic-IsValid valid _ _ (bit_and-lt 8 _ _ (reg_fits (field_d op)))) 2

  pub com_reg-IsValid : IsValid (com_reg op m).1
  unfolding com_reg
  com_reg-IsValid =
      let stored = set_reg-IsValid valid (field_d op) _ (u8-lt _) in
      let flagged = set_flag-IsValid (set_flag-IsValid stored _ _) _ _ in
      advance-IsValid (check_zsnf-IsValid flagged _) 2

  pub eor-IsValid : IsValid (eor op m).1
  unfolding eor
  eor-IsValid =
      let fits = bit_xor-lt 8 _ _ (reg_fits (field_d op)) (reg_fits (field_r op)) in
      advance-IsValid (put_logic-IsValid valid _ _ fits) 2

  pub or-IsValid : IsValid (or op m).1
  unfolding or
  or-IsValid =
      let fits = bit_or-lt 8 _ _ (reg_fits (field_d op)) (reg_fits (field_r op)) in
      advance-IsValid (put_logic-IsValid valid _ _ fits) 2

  pub ori-IsValid : IsValid (ori op m).1
  unfolding ori
  ori-IsValid =
      let fits = bit_or-lt 8 _ _ (reg_fits (field_d op)) (imm_byte-lt op) in
      advance-IsValid (put_logic-IsValid valid _ _ fits) 2

  pub sbr-IsValid : IsValid (sbr op m).1
  unfolding sbr
  sbr-IsValid = advance-IsValid (put_logic-IsValid valid _ _ (u8-lt _)) 2

  pub ser-IsValid : IsValid (ser op m).1
  unfolding ser
  ser-IsValid = advance-IsValid (set_reg-IsValid valid _ 0xff (omega arith)) 2

  pub swap-IsValid : IsValid (swap op m).1
  unfolding swap
  swap-IsValid = advance-IsValid (set_reg-IsValid valid _ _ (u8-lt _)) 2

  pub asr-IsValid : IsValid (asr op m).1
  unfolding asr
  asr-IsValid = advance-IsValid (shift_flags-IsValid (set_reg-IsValid valid _ _ (u8-lt _)) _ _ _) 2

  pub lsl-IsValid : IsValid (lsl op m).1
  unfolding lsl
  lsl-IsValid = advance-IsValid (shift_flags-IsValid (set_reg-IsValid valid _ _ (u8-lt _)) _ _ _) 2

  pub lsr-IsValid : IsValid (lsr op m).1
  unfolding lsr
  lsr-IsValid = advance-IsValid (shift_flags-IsValid (set_reg-IsValid valid _ _ (u8-lt _)) _ _ _) 2

  pub ror-IsValid : IsValid (ror op m).1
  unfolding ror
  ror-IsValid = advance-IsValid (shift_flags-IsValid (set_reg-IsValid valid _ _ (u8-lt _)) _ _ _) 2

  pub bclr-IsValid : IsValid (bclr op m).1
  unfolding bclr
  bclr-IsValid = advance-IsValid (set_flag-IsValid valid _ _) 2

  pub bset-IsValid : IsValid (bset op m).1
  unfolding bset
  bset-IsValid = advance-IsValid (set_flag-IsValid valid _ _) 2

  pub bld-IsValid : IsValid (bld op m).1
  unfolding bld
  bld-IsValid = advance-IsValid (set_reg-IsValid valid _ _ (put_flag-lt _ _ _)) 2

  pub bst-IsValid : IsValid (bst op m).1
  unfolding bst
  bst-IsValid = advance-IsValid (set_flag-IsValid valid _ _) 2

pub cbr-IsValid : (op : ℕ) {m : Machine} → IsValid m → IsValid (cbr op m).1
unfolding cbr
cbr-IsValid op valid = andi-IsValid _ valid
