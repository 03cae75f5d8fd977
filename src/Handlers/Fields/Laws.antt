-- ===== src/Handlers/Fields/Laws.antt =====
-- The operand fields as quotients and remainders of the opcode.
use mikode.Prelude.{ℕ, ◌+◌, ◌*◌, ◌/◌, ◌%◌, ◌^◌, ◌≡◌, arith}
use mikode.Prelude.{bit_and}
use mikode.Prelude.Bits.{bit_and_low, bit_and_shifted, bit_or_low, bit_or_high}
use mikode.Handlers.Fields.{
  field_r, field_d, field_pair, imm_byte, imm_word, field_bit, field_sreg, field_offset,
}

pub field_r_lem : (op : ℕ) → field_r op ≡ op % 16
unfolding field_r
field_r_lem op = bit_and_low 4 op

pub field_d_lem : (op : ℕ) → field_d op ≡ op / 16 % 16
unfolding field_d
field_d_lem op = omega (arith, bit_and_shifted 4 op 15, bit_and_low 4 (op / 16))

pub field_bit_lem : (op : ℕ) → field_bit op ≡ op % 8
unfolding field_bit
field_bit_lem op = bit_and_low 3 op

pub field_sreg_lem : (op : ℕ) → field_sreg op ≡ op / 16 % 8
unfolding field_sreg
field_sreg_lem op = omega (arith, bit_and_shifted 4 op 7, bit_and_low 3 (op / 16))

pub field_offset_lem : (op : ℕ) → field_offset op ≡ op / 8 % 128
unfolding field_offset
field_offset_lem op = omega (arith, bit_and_shifted 3 op 127, bit_and_low 7 (op / 8))

pub imm_byte_lem : (op : ℕ) → imm_byte op ≡ op / 256 % 16 * 16 + op % 16
unfolding imm_byte
imm_byte_lem op =
    let high : bit_and op 0x0f00 / 2 ^ 4 ≡ op / 256 % 16 * 2 ^ 4 =
      omega (arith, bit_and_shifted 8 op 15, bit_and_low 4 (op / 256)) in
    let low : bit_and op 0x000f ≡ op % 16 = bit_and_low 4 op in
    rw (high, low) (bit_or_low 4 (op / 256 % 16) (op % 16) (omega arith))

pub imm_word_lem : (op : ℕ) → imm_word op ≡ op / 64 % 4 * 16 + op % 16
unfolding imm_word
imm_word_lem op =
    let high : bit_and op 0x00c0 / 2 ^ 2 ≡ op / 64 % 4 * 2 ^ 4 =
      omega (arith, bit_and_shifted 6 op 3, bit_and_low 2 (op / 64)) in
    let low : bit_and op 0x000f ≡ op % 16 = bit_and_low 4 op in
    rw (high, low) (bit_or_low 4 (op / 64 % 4) (op % 16) (omega arith))

pub field_pair_lem : (op : ℕ) → field_pair op ≡ 8 + op / 16 % 4 * 2
unfolding field_pair
field_pair_lem op =
    let low : bit_and (op / 2 ^ 3 % 256) 0x06 ≡ op / 16 % 4 * 2 =
      omega
        (arith, bit_and_shifted 1 (op / 2 ^ 3 % 256) 3, bit_and_low 2 (op / 2 ^ 3 % 256 / 2 ^ 1)) in
    rw low (bit_or_high 3 1 (op / 16 % 4 * 2) (omega arith))
