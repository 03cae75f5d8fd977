-- ===== src/Assembler/Encode.antt =====
-- How `get_operand` of src/operand.c joins the operands of an instruction into its opcode, one
-- function for each `case`. The value `v` of the immediate and branch types is 0 there: it is
-- patched in the second pass. The register numbers are those that `get_reg` has returned.
pub mod Laws
use mikode.Prelude.{ℕ, ◌+◌, Bool, ◌||◌, not, Option, some, none, if◌then◌else◌}
use mikode.Prelude.{bit_and, bit_or, ◌<<◌, ◌==◌, ltb, leb, ◌%◌, truth}

unfoldable pub enc_dir_sing : ℕ → ℕ → ℕ
enc_dir_sing op d = bit_or op (d << 4)

unfoldable pub enc_dir_dual : ℕ → ℕ → ℕ → ℕ
enc_dir_dual op d r = bit_or (bit_or op (d << 4)) r

unfoldable pub enc_dir_std : ℕ → ℕ → ℕ
enc_dir_std op d = bit_or (bit_or op (d << 4)) d

-- `v`, an `int16_t` by its pattern, split as `kH` and `kL`
unfoldable pub enc_imm_byte : ℕ → ℕ → ℕ → ℕ
enc_imm_byte op d v =
    bit_or (bit_or (bit_or op (d << 4)) (bit_and (v << 4) 0x0f00)) (bit_and v 0x000f)

-- The pair `d:dl` has to be adjacent, from register 8 on, with `d` odd; `none` is ER_RAN.
unfoldable pub enc_imm_word : ℕ → ℕ → ℕ → ℕ → Option ℕ
enc_imm_word op d dl v =
    if not (d == dl + 1) || ltb dl 8 || not (truth (d % 2))
    then none
    else some (
        bit_or (bit_or (bit_or op (bit_and dl 0x06 << 3)) (bit_and (v << 2) 0x00c0))
          (bit_and v 0x000f))

-- The pairs `d:dl` and `r:rl`.
unfoldable pub enc_dir_word : ℕ → ℕ → ℕ → ℕ → ℕ → Option ℕ
enc_dir_word op d dl r rl =
    if not (d == dl + 1) || not (truth (d % 2))
    then none
    else if not (r == rl + 1) || not (truth (r % 2))
    then none
    else some (bit_or (bit_or op (bit_and dl 0x0f << 4)) (bit_and rl 0x0f))

unfoldable pub enc_branch : ℕ → ℕ → ℕ
enc_branch op v = bit_or op (bit_and v 0x007f << 3)

-- A bit from 0 to 7; `none` is ER_VAL. `b` is an `int16_t` by its pattern, so a negative one is
-- above 7 too.
unfoldable pub enc_br_bit : ℕ → ℕ → ℕ → Option ℕ
enc_br_bit op b v =
    if ltb 7 b then none else some (bit_or (bit_or op (bit_and b 0x07)) (bit_and v 0x007f << 3))

unfoldable pub enc_bit : ℕ → ℕ → Option ℕ
enc_bit op b = if ltb 7 b then none else some (bit_or op (bit_and b 0x07 << 4))

unfoldable pub enc_ldstr_bit : ℕ → ℕ → ℕ → Option ℕ
enc_ldstr_bit op d b = if ltb 7 b then none else some (bit_or (bit_or op (bit_and d 0x0f << 4)) b)

-- LD_IND and STR_IND, with the mask of the addressing mode
unfoldable pub enc_indirect : ℕ → ℕ → ℕ → ℕ
enc_indirect op d mask = bit_or (bit_or op (d << 4)) mask

-- LD_DIR and STR_DIR, beside which `opextra` takes the address
unfoldable pub enc_direct : ℕ → ℕ → ℕ
enc_direct op d = bit_or op (d << 4)
