-- ===== src/Assembler/Encode/Laws.antt =====
-- What an assembled opcode is to src/execute.c. Each statement is checked at all operands of all
-- rows of a type.
use mikode.Prelude.{
  ℕ, ◌<◌, ◌≡◌, refl, arith, Bool, true, false, not, ◌||◌, ◌&&◌, Option, some, none,
}
use mikode.Prelude.{List, all, ap, bit_and, ◌==◌, ==_iff, all_below, all_below_sound}
use mikode.Decode.{decode, decode_com_on, decode_lds_on, decode_ror_on}
use mikode.Decode.Index.{index, index_sound}
use mikode.Handlers.Fields.{field_d, field_r, field_bit, field_sreg}
use mikode.Assembler.Opcodes.{Row, OpType, ins, getopcode, type_number}
use mikode.Assembler.Opcodes.Laws.{getopcode-all}
use mikode.Assembler.Encode.{enc_dir_sing, enc_dir_dual, enc_bit, enc_ldstr_bit}
use mikode.Assembler.Encode.{enc_indirect, enc_direct}

-- What it is for `made` to be an opcode that `execute` hands to the handler of the table's
-- opcode `op`, and out of which the handler's fields `f` and `g` take the operands `x` and `y`.
pub record Kept (made : Option ℕ) (f g : ℕ → ℕ) (op x y : ℕ) : Type 0 where
  pub word : ℕ
  pub is_made : made ≡ some word
  pub handler : decode word ≡ decode op
  pub first : f word ≡ x
  pub second : g word ≡ y

unfoldable pub keeps : Option ℕ → (ℕ → ℕ) → (ℕ → ℕ) → ℕ → ℕ → ℕ → Bool
keeps none f g op x y = false
keeps (some w) f g op x y = (index (decode w) == index (decode op)) && (f w == x) && (g w == y)

keeps_sound :
    (made : Option ℕ) (f g : ℕ → ℕ) (op x y : ℕ)
    → keeps made f g op x y ≡ true
    → Kept made f g op x y
unfolding keeps
keeps_sound none f g op x y h = cc
keeps_sound (some w) f g op x y h = record {
  word = w;
  is_made = refl;
  handler = index_sound (decode w) (decode op) (ground arith);
  first = ground arith;
  second = ground arith;
}

unfoldable pub row_keeps : OpType → ℕ → ℕ → (ℕ → ℕ → ℕ → Option ℕ) → (ℕ → ℕ) → (ℕ → ℕ) → Row → Bool
unfolding keeps
row_keeps t m n enc f g r =
    not (type_number r.type == type_number t)
    || all_below m (λ x. all_below n (λ y. keeps (enc r.opcode x y) f g r.opcode x y))

rest_holds : (a b : Bool) → a ≡ true → (not a || b) ≡ true → b ≡ true
rest_holds true b h k = k
rest_holds false b h k = cc

pub row_keeps_sound :
    (t : OpType) (m n : ℕ) (enc : ℕ → ℕ → ℕ → Option ℕ) (f g : ℕ → ℕ) (b : List ℕ) (r : Row)
    (x y : ℕ)
    → all (row_keeps t m n enc f g) ins ≡ true
    → getopcode b ≡ some r
    → r.type ≡ t
    → x < m
    → y < n
    → Kept (enc r.opcode x y) f g r.opcode x y
unfolding row_keeps
row_keeps_sound t m n enc f g b r x y h found typed hx hy =
    let here = getopcode-all (row_keeps t m n enc f g) b r h found in
    let same = (==_iff (type_number r.type) (type_number t)).1 (ap type_number typed) in
    let at_x =
      all_below_sound m
        (λ (x : ℕ). all_below n (λ (y : ℕ). keeps (enc r.opcode x y) f g r.opcode x y))
        (rest_holds _ _ same here) x hx in
    keeps_sound (enc r.opcode x y) f g r.opcode x y
      (all_below_sound n (λ (y : ℕ). keeps (enc r.opcode x y) f g r.opcode x y) at_x y hy)

sing_rows :
    all (row_keeps OpType.dir_sing 16 1 (λ op d y. some (enc_dir_sing op d)) (field_d) (λ w. 0)) ins
    ≡ true
unfolding row_keeps keeps all_below decode decode_com_on decode_lds_on decode_ror_on index
    enc_dir_sing field_d
sing_rows = refl

-- A DIR_SING mnemonic with register `d`: its opcode goes to the handler of its row, with `d` as
-- the destination register.
pub sing-Kept :
    (b : List ℕ) (row : Row) (d : ℕ)
    → getopcode b ≡ some row
    → row.type ≡ OpType.dir_sing
    → d < 16
    → Kept (some (enc_dir_sing row.opcode d)) field_d (λ w. 0) row.opcode d 0
sing-Kept b row d found typed hd =
    row_keeps_sound OpType.dir_sing 16 1 (λ op d y. some (enc_dir_sing op d)) (field_d) (λ w. 0) b
      row d 0 sing_rows found typed hd (omega arith)

dual_rows :
    all
      (row_keeps OpType.dir_dual 16 16 (λ op d r. some (enc_dir_dual op d r)) (field_d) (field_r))
      ins
    ≡ true
unfolding row_keeps keeps all_below decode decode_com_on decode_lds_on decode_ror_on index
    enc_dir_dual field_d field_r
dual_rows = refl

-- A DIR_DUAL mnemonic with registers `d` and `r`: its opcode goes to the handler of its row, with
-- `d` as the destination and `r` as the source register.
pub dual-Kept :
    (b : List ℕ) (row : Row) (d r : ℕ)
    → getopcode b ≡ some row
    → row.type ≡ OpType.dir_dual
    → d < 16
    → r < 16
    → Kept (some (enc_dir_dual row.opcode d r)) field_d field_r row.opcode d r
dual-Kept b row d r found typed hd hr =
    row_keeps_sound OpType.dir_dual 16 16 (λ op d r. some (enc_dir_dual op d r)) (field_d) (field_r)
      b row d r dual_rows found typed hd hr

bit_rows : all (row_keeps OpType.bit 1 8 (λ op x s. enc_bit op s) (λ w. 0) (field_sreg)) ins ≡ true
unfolding row_keeps keeps all_below decode decode_com_on decode_lds_on decode_ror_on index enc_bit
    field_sreg
bit_rows = refl

-- A BIT mnemonic with a bit `s` below 8: it is accepted, its opcode goes to the handler of its
-- row, and `s` is the bit of the status register that the handler sees.
pub bit-Kept :
    (b : List ℕ) (row : Row) (s : ℕ)
    → getopcode b ≡ some row
    → row.type ≡ OpType.bit
    → s < 8
    → Kept (enc_bit row.opcode s) (λ w. 0) field_sreg row.opcode 0 s
bit-Kept b row s found typed hs =
    row_keeps_sound OpType.bit 1 8 (λ op x s. enc_bit op s) (λ w. 0) (field_sreg) b row 0 s bit_rows
      found typed (omega arith) hs

ldstr_bit_rows :
    all (row_keeps OpType.ldstr_bit 16 8 (enc_ldstr_bit) (field_d) (field_bit)) ins ≡ true
unfolding row_keeps keeps all_below decode decode_com_on decode_lds_on decode_ror_on index
    enc_ldstr_bit field_d field_bit
ldstr_bit_rows = refl

-- A LDSTR_BIT mnemonic with register `d` and a bit `s` below 8: it is accepted, its opcode goes
-- to the handler of its row, and the handler sees `d` and `s`.
pub ldstr_bit-Kept :
    (b : List ℕ) (row : Row) (d s : ℕ)
    → getopcode b ≡ some row
    → row.type ≡ OpType.ldstr_bit
    → d < 16
    → s < 8
    → Kept (enc_ldstr_bit row.opcode d s) field_d field_bit row.opcode d s
ldstr_bit-Kept b row d s found typed hd hs =
    row_keeps_sound OpType.ldstr_bit 16 8 (enc_ldstr_bit) (field_d) (field_bit) b row d s
      ldstr_bit_rows found typed hd hs

ld_ind_rows :
    all
      (row_keeps OpType.ld_ind 16 3
        (λ op d m. some (enc_indirect op d m))
        (field_d)
        (λ w. bit_and w 0x0003))
      ins
    ≡ true
unfolding row_keeps keeps all_below decode decode_com_on decode_lds_on decode_ror_on index
    enc_indirect field_d
ld_ind_rows = refl

-- A LD_IND mnemonic with register `d` and an addressing mode `m`: its opcode goes to the handler
-- of its row, which sees `d` and `m`.
pub ld_ind-Kept :
    (b : List ℕ) (row : Row) (d m : ℕ)
    → getopcode b ≡ some row
    → row.type ≡ OpType.ld_ind
    → d < 16
    → m < 3
    → Kept (some (enc_indirect row.opcode d m)) field_d (λ w. bit_and w 0x0003) row.opcode d m
ld_ind-Kept b row d m found typed hd hm =
    row_keeps_sound OpType.ld_ind 16 3 (λ op d m. some (enc_indirect op d m)) (field_d)
      (λ w. bit_and w 0x0003) b row d m ld_ind_rows found typed hd hm

str_ind_rows :
    all
      (row_keeps OpType.str_ind 16 3
        (λ op d m. some (enc_indirect op d m))
        (field_d)
        (λ w. bit_and w 0x0003))
      ins
    ≡ true
unfolding row_keeps keeps all_below decode decode_com_on decode_lds_on decode_ror_on index
    enc_indirect field_d
str_ind_rows = refl

-- A STR_IND mnemonic with register `d` and an addressing mode `m`: its opcode goes to the handler
-- of its row, which sees `d` and `m`.
pub str_ind-Kept :
    (b : List ℕ) (row : Row) (d m : ℕ)
    → getopcode b ≡ some row
    → row.type ≡ OpType.str_ind
    → d < 16
    → m < 3
    → Kept (some (enc_indirect row.opcode d m)) field_d (λ w. bit_and w 0x0003) row.opcode d m
str_ind-Kept b row d m found typed hd hm =
    row_keeps_sound OpType.str_ind 16 3 (λ op d m. some (enc_indirect op d m)) (field_d)
      (λ w. bit_and w 0x0003) b row d m str_ind_rows found typed hd hm

ld_dir_rows :
    all (row_keeps OpType.ld_dir 16 1 (λ op d y. some (enc_direct op d)) (field_d) (λ w. 0)) ins
    ≡ true
unfolding row_keeps keeps all_below decode decode_com_on decode_lds_on decode_ror_on index
    enc_direct field_d
ld_dir_rows = refl

-- A LD_DIR mnemonic with register `d`: its opcode goes to the handler of its row, which sees `d`.
pub ld_dir-Kept :
    (b : List ℕ) (row : Row) (d : ℕ)
    → getopcode b ≡ some row
    → row.type ≡ OpType.ld_dir
    → d < 16
    → Kept (some (enc_direct row.opcode d)) field_d (λ w. 0) row.opcode d 0
ld_dir-Kept b row d found typed hd =
    row_keeps_sound OpType.ld_dir 16 1 (λ op d y. some (enc_direct op d)) (field_d) (λ w. 0) b row d
      0 ld_dir_rows found typed hd (omega arith)

str_dir_rows :
    all (row_keeps OpType.str_dir 16 1 (λ op d y. some (enc_direct op d)) (field_d) (λ w. 0)) ins
    ≡ true
unfolding row_keeps keeps all_below decode decode_com_on decode_lds_on decode_ror_on index
    enc_direct field_d
str_dir_rows = refl

-- A STR_DIR mnemonic with register `d`: its opcode goes to the handler of its row, which sees `d`.
pub str_dir-Kept :
    (b : List ℕ) (row : Row) (d : ℕ)
    → getopcode b ≡ some row
    → row.type ≡ OpType.str_dir
    → d < 16
    → Kept (some (enc_direct row.opcode d)) field_d (λ w. 0) row.opcode d 0
str_dir-Kept b row d found typed hd =
    row_keeps_sound OpType.str_dir 16 1 (λ op d y. some (enc_direct op d)) (field_d) (λ w. 0) b row
      d 0 str_dir_rows found typed hd (omega arith)
