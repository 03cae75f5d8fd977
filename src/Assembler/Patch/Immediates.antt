-- ===== src/Assembler/Patch/Immediates.antt =====
-- What an opcode with an immediate is to src/execute.c after the second pass of src/parse.c.
use mikode.Prelude.{
  ℕ, ◌+◌, ◌*◌, ◌-◌, ◌/◌, ◌%◌, ◌^◌, ◌<◌, ◌≤◌, ◌≡◌, refl, arith, ◌∙◌, ap, sym, ◌↔◌, Bool, true, false,
  Option, some, none,
}
use mikode.Prelude.{List, all, all_below, bit_and, ◌<<◌, if◌then◌else◌}
use mikode.Prelude.Bits.{low_byte, bit_and_low, bit_and_shifted}
use mathlib.Core.Path.{subst}
use mikode.Decode.{decode, decode_com_on, decode_lds_on, decode_ror_on}
use mikode.Decode.Index.{index}
use mikode.Handlers.Fields.{field_d, imm_byte, imm_word, field_pair}
use mikode.Assembler.Opcodes.{Row, OpType, ins, getopcode}
use mikode.Assembler.Encode.{enc_imm_byte, enc_imm_word}
use mikode.Assembler.Encode.Laws.{Kept, keeps, row_keeps, row_keeps_sound}
use mikode.Handlers.Fields.Laws.{field_pair_lem}
use mikode.Assembler.Patch.{Patch, Code, patch_line, char_out_of_range}

-- The opcode that a line has in the end, if the patch is accepted.
unfoldable pub opcode_of : Option Code → Option ℕ
opcode_of none = none
opcode_of (some c) = some c.opcode

abbrev line_of : ℕ → Code
line_of op = record { opcode = op; opextra = 0 }

abbrev byte_line : ℕ → ℕ → ℕ → Option ℕ
byte_line op d to = opcode_of (patch_line Patch.imm_byte 0 to (line_of (enc_imm_byte op d 0)))

byte_rows : all (row_keeps OpType.imm_byte 16 256 byte_line field_d imm_byte) ins ≡ true
unfolding row_keeps keeps all_below decode decode_com_on decode_lds_on decode_ror_on index opcode_of
    patch_line enc_imm_byte field_d imm_byte
byte_rows = refl

byte_line_lem :
    (op d from to e : ℕ)
    → opcode_of
        (patch_line Patch.imm_byte from to (record { opcode = enc_imm_byte op d 0; opextra = e }))
      ≡ byte_line op d (to % 256)
unfolding opcode_of patch_line
byte_line_lem op d from to e =
    let same : bit_and to 0x00ff ≡ bit_and (to % 256) 0x00ff =
      omega (arith, low_byte to, low_byte (to % 256)) in
    rw same refl

-- An IMM_BYTE mnemonic with register `d` and any value `to` of its expression: the patch is
-- accepted, the opcode goes to the handler of its row, and the handler sees `d` and the low byte
-- of the value.
pub imm_byte-Kept :
    (b : List ℕ) (row : Row) (d from to e : ℕ)
    → getopcode b ≡ some row
    → row.type ≡ OpType.imm_byte
    → d < 16
    → Kept
        (opcode_of (
          patch_line Patch.imm_byte from to
            (record { opcode = enc_imm_byte row.opcode d 0; opextra = e })))
        field_d
        imm_byte
        row.opcode
        d
        (to % 256)
imm_byte-Kept b row d from to e found typed hd =
    subst (λ (o : Option ℕ). Kept o field_d imm_byte row.opcode d (to % 256))
      (sym (byte_line_lem row.opcode d from to e))
      (row_keeps_sound OpType.imm_byte 16 256 byte_line field_d imm_byte b row d (to % 256)
        byte_rows found typed hd (omega arith))

abbrev word_patch : ℕ → Option ℕ → Option ℕ
word_patch k none = none
word_patch k (some o) = opcode_of (patch_line Patch.imm_word 0 k (line_of o))

abbrev pair_line : ℕ → ℕ → ℕ → Option ℕ
pair_line op x k = word_patch k (enc_imm_word op (2 * x + 9) (2 * x + 8) 0)

word_rows :
    all (row_keeps OpType.imm_word 4 64 pair_line (λ w. (field_pair w - 8) / 2) imm_word) ins ≡ true
unfolding row_keeps keeps all_below decode decode_com_on decode_lds_on decode_ror_on index
    enc_imm_word field_pair imm_word patch_line opcode_of char_out_of_range
word_rows = refl

-- An IMM_WORD value is refused exactly when its low byte is above 63.
pub imm_word-range :
    (from to : ℕ) (c : Code) → (patch_line Patch.imm_word from to c ≡ none) ↔ (64 ≤ to % 256)
unfolding patch_line char_out_of_range
imm_word-range from to c = ground arith

opcode_of_if :
    (b : Bool) (o e₁ e₂ : ℕ)
    → opcode_of (if b then none else some (record { opcode = o; opextra = e₁ }))
      ≡ opcode_of (if b then none else some (record { opcode = o; opextra = e₂ }))
unfolding opcode_of
opcode_of_if true o e₁ e₂ = refl
opcode_of_if false o e₁ e₂ = refl

word_line_lem :
    (from to : ℕ) (c : Code)
    → opcode_of (patch_line Patch.imm_word from to c)
      ≡ opcode_of (patch_line Patch.imm_word 0 (to % 256) (line_of c.opcode))
unfolding opcode_of patch_line char_out_of_range
word_line_lem from to c =
    let low : bit_and to 0x000f ≡ bit_and (to % 256) 0x000f =
      omega (arith, bit_and_low 4 to, bit_and_low 4 (to % 256)) in
    let high : bit_and (to << 2) 0x00c0 ≡ bit_and ((to % 256) << 2) 0x00c0 = omega (
      arith,
      bit_and_shifted 6 (to * 2 ^ 2) 3,
      bit_and_low 2 (to * 2 ^ 2 / 2 ^ 6),
      bit_and_shifted 6 (to % 256 * 2 ^ 2) 3,
      bit_and_low 2 (to % 256 * 2 ^ 2 / 2 ^ 6),
    ) in
    let again : to % 256 % 256 ≡ to % 256 = omega arith in
    rw (low, high, again) (opcode_of_if (char_out_of_range to) _ c.opextra 0)

-- An IMM_WORD mnemonic with the pair `2 x + 9 : 2 x + 8`, for `x` below 4, and a value whose low
-- byte is below 64: the patch is accepted, the opcode goes to the handler of its row, which sees
-- the lower register of the pair and the low byte of the value.
pub imm_word-Kept :
    (b : List ℕ) (row : Row) (x o from to : ℕ) (c : Code)
    → getopcode b ≡ some row
    → row.type ≡ OpType.imm_word
    → x < 4
    → to % 256 < 64
    → enc_imm_word row.opcode (2 * x + 9) (2 * x + 8) 0 ≡ some o
    → c.opcode ≡ o
    → Kept
        (opcode_of (patch_line Patch.imm_word from to c))
        field_pair
        imm_word
        row.opcode
        (2 * x + 8)
        (to % 256)
imm_word-Kept b row x o from to c found typed hx near made at_o =
    let k =
      row_keeps_sound OpType.imm_word 4 64 pair_line (λ w. (field_pair w - 8) / 2) imm_word b row x
        (to % 256) word_rows found typed hx near in
    let line : pair_line row.opcode x (to % 256) ≡ word_patch (to % 256) (some o) =
      ap (word_patch (to % 256)) made in
    let patched = word_line_lem from to c in
    record {
      word = k.word;
      is_made =
          patched
          ∙ ap (λ (t : ℕ). opcode_of (patch_line Patch.imm_word 0 (to % 256) (line_of t))) at_o
          ∙ sym line
          ∙ k.is_made;
      handler = k.handler;
      first = omega (arith, k.first, field_pair_lem k.word);
      second = k.second;
    }
