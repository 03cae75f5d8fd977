-- ===== src/Assembler/Patch.antt =====
-- The second pass of `compile` in src/parse.c: the value of a label expression is put into the
-- opcode of a line, or beside it.
pub mod Laws
pub mod Immediates
pub mod Branches
use mikode.Prelude.{ℕ, ◌+◌, ◌-◌, Bool, true, false, ◌||◌, ◌&&◌, Option, some, none}
use mikode.Prelude.{if◌then◌else◌, bit_and, bit_or, u8, u16, sub16, ◌<<◌, ◌>>◌, ltb, leb}

-- `in->patch`, 0 to 6
pub data Patch : Type 0 where
  no_patch branch dir32 vall valh imm_byte imm_word : Patch

-- `opcode` and `opextra` of a line
pub record Code : Type 0 where
  pub opcode : ℕ
  pub opextra : ℕ

-- `a < b` on `int16_t`, each by its bit pattern
abbrev pub ltb16 : ℕ → ℕ → Bool
ltb16 a b = ltb (u16 (a + 0x8000)) (u16 (b + 0x8000))

-- The pattern of -64.
abbrev minus_64 : ℕ
minus_64 = 65472

-- `(char) kval > 63 || (char) kval < 0`, with `char` signed
unfoldable pub char_out_of_range : ℕ → Bool
char_out_of_range kval = let c = u8 kval in (ltb c 128 && ltb 63 c) || leb 128 c

-- The branch of the chain that `patch` selects; `none` is the jump to `fatal`. `to` is the value
-- of the expression, an `int16_t` by its pattern.
unfoldable pub patch_line : Patch → ℕ → ℕ → Code → Option Code
unfolding char_out_of_range
patch_line no_patch from to code = some code
patch_line branch from to code =
    let br_val = sub16 to from in
    if ltb16 63 br_val || ltb16 br_val minus_64
    then none
    else some (record code { opcode = bit_or code.opcode (bit_and br_val 0x007f << 3) })
patch_line dir32 from to code = some (record code { opextra = to })
patch_line vall from to code =
    let kval = bit_and to 0x00ff in
    let k_h = bit_and (kval << 4) 0x0f00 in
    let k_l = bit_and kval 0x000f in
    some (record code { opcode = bit_or code.opcode (bit_or k_h k_l) })
patch_line imm_byte from to code =
    let kval = bit_and to 0x00ff in
    let k_h = bit_and (kval << 4) 0x0f00 in
    let k_l = bit_and kval 0x000f in
    some (record code { opcode = bit_or code.opcode (bit_or k_h k_l) })
patch_line valh from to code =
    let kval = bit_and to 0xff00 in
    let k_h = bit_and (kval >> 4) 0x0f00 in
    let k_l = bit_and (kval >> 8) 0x000f in
    some (record code { opcode = bit_or code.opcode (bit_or k_h k_l) })
patch_line imm_word from to code =
    let k_h = bit_and (to << 2) 0x00c0 in
    let k_l = bit_and to 0x000f in
    if char_out_of_range to
    then none
    else some (record code { opcode = bit_or code.opcode (bit_or k_h k_l) })
