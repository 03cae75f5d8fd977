-- ===== src/Handlers/Fields.antt =====
-- The operand fields that the handlers of src/execute.c cut out of an opcode.
pub mod Laws
use mikode.Prelude.{ℕ, bit_and, bit_or, ◌>>◌, u8}

-- `op & 0x000f` and `(op & 0x00f0) >> 4`
unfoldable pub field_r : ℕ → ℕ
field_r op = bit_and op 0x000f

unfoldable pub field_d : ℕ → ℕ
field_d op = bit_and op 0x00f0 >> 4

-- `(op & 0x000f) | ((op & 0x0f00) >> 4)`
unfoldable pub imm_byte : ℕ → ℕ
imm_byte op = bit_or (bit_and op 0x000f) (bit_and op 0x0f00 >> 4)

-- `(op & 0x000f) | ((op & 0x00c0) >> 2)`
unfoldable pub imm_word : ℕ → ℕ
imm_word op = bit_or (bit_and op 0x000f) (bit_and op 0x00c0 >> 2)

-- `0x08 | ((uint8_t) (op >> 3) & 0x06)`, the low register of a pair
unfoldable pub field_pair : ℕ → ℕ
field_pair op = bit_or 0x08 (bit_and (u8 (op >> 3)) 0x06)

-- `op & 0x0007`, and `(op & 0x0070) >> 4`
unfoldable pub field_bit : ℕ → ℕ
field_bit op = bit_and op 0x0007

unfoldable pub field_sreg : ℕ → ℕ
field_sreg op = bit_and op 0x0070 >> 4

-- `(op & 0x03f8) >> 3`, the offset of a branch
unfoldable pub field_offset : ℕ → ℕ
field_offset op = bit_and op 0x03f8 >> 3
