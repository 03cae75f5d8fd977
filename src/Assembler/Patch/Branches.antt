-- ===== src/Assembler/Patch/Branches.antt =====
-- What a branch is to src/execute.c after the second pass of src/parse.c.
use mikode.Prelude.{ℕ, ◌*◌, ◌%◌, ◌^◌, ◌<◌, ◌≡◌, refl, arith, ◌∙◌, ap, sym, true, Option, some, none}
use mikode.Prelude.{List, all, all_below, bit_or, ◌<<◌, sub16}
use mikode.Decode.{decode, decode_com_on, decode_lds_on, decode_ror_on}
use mikode.Decode.Index.{index}
use mikode.Handlers.Fields.{field_offset, field_bit}
use mikode.Assembler.Opcodes.{Row, OpType, ins, getopcode}
use mikode.Assembler.Encode.{enc_branch, enc_br_bit}
use mikode.Assembler.Encode.Laws.{Kept, keeps, row_keeps, row_keeps_sound}
use mikode.Handlers.Flow.{branch_to}
use mikode.Assembler.Patch.Laws.{branch-accepted}
use mikode.Assembler.Patch.{Patch, Code, patch_line}

-- The opcode with a branch offset in it.
abbrev with_offset : ℕ → Option ℕ → Option ℕ
with_offset k none = none
with_offset k (some o) = some (bit_or o (k << 3))

abbrev branch_line : ℕ → ℕ → ℕ → Option ℕ
branch_line op x k = with_offset k (some (enc_branch op 0))

branch_rows : all (row_keeps OpType.branch 1 128 branch_line (λ w. 0) field_offset) ins ≡ true
unfolding row_keeps keeps all_below decode decode_com_on decode_lds_on decode_ror_on index
    enc_branch field_offset
branch_rows = refl

abbrev br_bit_line : ℕ → ℕ → ℕ → Option ℕ
br_bit_line op s k = with_offset k (enc_br_bit op s 0)

br_bit_rows : all (row_keeps OpType.br_bit 8 128 br_bit_line field_bit field_offset) ins ≡ true
unfolding row_keeps keeps all_below decode decode_com_on decode_lds_on decode_ror_on index
    enc_br_bit field_offset field_bit
br_bit_rows = refl

some-some : (a b : ℕ) → some a ≡ some b → a ≡ b
some-some a b h = cc

-- What the second pass leaves of a branch is what the rows were checked for.
placed :
    (f : ℕ → ℕ) (op x o from to : ℕ) (c c' : Code) (made : Option ℕ)
    → from < 65536
    → to < 65536
    → made ≡ some o
    → c.opcode ≡ o
    → patch_line Patch.branch from to c ≡ some c'
    → Kept (with_offset (sub16 to from % 128) made) f field_offset op x (sub16 to from % 128)
    → (decode c'.opcode ≡ decode op)
      × (f c'.opcode ≡ x)
      × (branch_to (field_offset c'.opcode) from ≡ to)
placed f op x o from to c c' made hf ht is_o at_o h k =
    let accepted = branch-accepted from to c c' hf ht h in
    let same : c'.opcode ≡ k.word =
      accepted.1
      ∙ ap (λ (t : ℕ). bit_or t (sub16 to from % 128 * 2 ^ 3)) at_o
      ∙ some-some _ _ (ap (with_offset (sub16 to from % 128)) (sym is_o) ∙ k.is_made) in
    (ap decode same ∙ k.handler, ap f same ∙ k.first, rw (same, k.second) (accepted.0))

-- A BR_BIT mnemonic with a bit `s` below 8, assembled at `from`, whose patch is accepted: its
-- opcode goes to the handler of its row, which looks at bit `s`, and if it branches it leaves `ip`
-- at the address `to` of the label.
pub br_bit-lands :
    (b : List ℕ) (row : Row) (s o from to : ℕ) (c c' : Code)
    → getopcode b ≡ some row
    → row.type ≡ OpType.br_bit
    → s < 8
    → from < 65536
    → to < 65536
    → enc_br_bit row.opcode s 0 ≡ some o
    → c.opcode ≡ o
    → patch_line Patch.branch from to c ≡ some c'
    → (decode c'.opcode ≡ decode row.opcode)
      × (field_bit c'.opcode ≡ s)
      × (branch_to (field_offset c'.opcode) from ≡ to)
br_bit-lands b row s o from to c c' found typed hs hf ht made at_o h =
    placed field_bit row.opcode s o from to c c' (enc_br_bit row.opcode s 0) hf ht made at_o h (
      row_keeps_sound OpType.br_bit 8 128 br_bit_line field_bit field_offset b row s
        (sub16 to from % 128) br_bit_rows found typed hs (omega arith))

-- A BRANCH mnemonic assembled at `from`, whose patch is accepted: its opcode goes to the handler
-- of its row, and if it branches it leaves `ip` at the address `to` of the label.
pub branch-reaches :
    (b : List ℕ) (row : Row) (from to : ℕ) (c c' : Code)
    → getopcode b ≡ some row
    → row.type ≡ OpType.branch
    → from < 65536
    → to < 65536
    → c.opcode ≡ enc_branch row.opcode 0
    → patch_line Patch.branch from to c ≡ some c'
    → (decode c'.opcode ≡ decode row.opcode) × (branch_to (field_offset c'.opcode) from ≡ to)
branch-reaches b row from to c c' found typed hf ht at_o h =
    let all_three =
      placed (λ w. 0) row.opcode 0 (enc_branch row.opcode 0) from to c c'
        (some (enc_branch row.opcode 0)) hf ht refl at_o h
        (row_keeps_sound OpType.branch 1 128 branch_line (λ w. 0) field_offset b row 0
          (sub16 to from % 128) branch_rows found typed (omega arith) (omega arith)) in
    (all_three.0, all_three.2)
