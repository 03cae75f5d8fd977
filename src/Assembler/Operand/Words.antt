-- ===== src/Assembler/Operand/Words.antt =====
-- The words that `get_operand` of src/operand.c puts into a line fit their 16 bits.
pub mod Parts
use mikode.Prelude.{ℕ, ◌<◌, arith, List, Option}
use mikode.Prelude.Holds.{Holds, fails, gives, if_Holds, any-Holds, bind-Holds}
use mikode.Assembler.Token.{Buffer, Scan}
use mikode.Assembler.Symbols.{Tables}
use mikode.Assembler.Expression.{Evaluator}
use mikode.Assembler.Opcodes.{OpType}
use mikode.Assembler.Encode.{enc_dir_sing, enc_dir_dual, enc_dir_std, enc_indirect, enc_direct}
use mikode.Assembler.Line.{Line, Rows}
use mikode.Assembler.Patch.{Patch}
use mikode.Assembler.Value.Fits.{get_val-fits}
use mikode.Assembler.Operand.{operand_of, operand_by, get_operand}
use mikode.Assembler.Operand.Bytes.{op_db}
use mikode.Assembler.Operand.Registers.{
  op_dir_sing, op_dir_dual, op_dir_std, op_dir_word, op_ld_ind, op_str_ind,
}
use mikode.Assembler.Operand.Values.{
  op_imm_byte, op_imm_word, op_branch, op_br_bit, op_bit, op_ldstr_bit, op_implied, op_dir_32,
  op_ld_dir, op_str_dir, address_at,
}
use mikode.Assembler.Operand.Scanner.{Filled, filled, with_rows, start_at, next, clear, step_back}
use mikode.Assembler.Operand.Words.Parts.{
  get_reg-low, dir_sing-word, dir_dual-word, imm_byte-word, branch-word, br_bit-word, bit-word,
  ldstr_bit-word, imm_word-word, dir_word-word, addressing_mode-low,
}

-- The words of a line are `uint16_t`.
pub record Words (l : Line) : Type 0 where
  pub opcode_fits : l.opcode < 65536
  pub opextra_fits : l.opextra < 65536
  pub address_fits : l.address < 65536

filled-Words :
    (op size p : ℕ) (l : Line)
    → op < 65536
    → Words l
    → Holds (λ (f : Filled). Words f.line) (filled op size p l)
filled-Words op size p l h w =
    gives (record { opcode_fits = h; opextra_fits = w.opextra_fits; address_fits = w.address_fits })

filled_patch-Words :
    (op p : ℕ) (k : Patch) (label : List ℕ) (l : Line)
    → op < 65536
    → Words l
    → Holds
        (λ (f : Filled). Words f.line)
        (filled op 2 p (record l { patch = k; patch_label = label }))
filled_patch-Words op p k label l h w =
    gives (record { opcode_fits = h; opextra_fits = w.opextra_fits; address_fits = w.address_fits })

address_at-Words :
    (t : Tables) (b : Buffer) (l : Line) (s : Scan)
    → Words l
    → Holds (λ (r : Line × Scan). Words r.0) (address_at t b l s)
unfolding address_at
address_at-Words t b l s w =
    if_Holds _
      (bind-Holds (get_val-fits t _ _) λ v h.
        gives
          (record { opcode_fits = w.opcode_fits; opextra_fits = h; address_fits = w.address_fits }))
      (gives (record {
        opcode_fits = w.opcode_fits;
        opextra_fits = omega arith;
        address_fits = w.address_fits;
      }))

module _ (te : Evaluator) (t : Tables) (b : Buffer) where
  operand_of-Words :
      (type : OpType) (l : Line) (p : ℕ)
      → Words l
      → Holds (λ (f : Filled). Words f.line) (operand_of te t b type l p)
  unfolding operand_of enc_dir_sing enc_dir_dual enc_dir_std enc_indirect enc_direct op_dir_sing
      op_dir_dual op_dir_std op_imm_byte op_imm_word op_dir_word op_branch op_br_bit op_bit
      op_ldstr_bit op_implied op_dir_32 op_ld_ind op_str_ind op_ld_dir op_str_dir
  operand_of-Words OpType.dir_sing l p w =
      bind-Holds (get_reg-low t _)
        λ d h. filled-Words _ 2 _ l (dir_sing-word l.opcode w.opcode_fits d h) w
  operand_of-Words OpType.dir_dual l p w = bind-Holds (get_reg-low t _) λ d h. any-Holds _ λ u.
      bind-Holds (get_reg-low t _)
        λ r k. filled-Words _ 2 _ l (dir_dual-word l.opcode w.opcode_fits d r h k) w
  operand_of-Words OpType.dir_std l p w =
      bind-Holds (get_reg-low t _)
        λ d h. filled-Words _ 2 _ l (dir_dual-word l.opcode w.opcode_fits d d h h) w
  operand_of-Words OpType.imm_byte l p w = bind-Holds (get_reg-low t _) λ d h.
      any-Holds _ λ u. filled_patch-Words _ _ _ _ l (imm_byte-word l.opcode w.opcode_fits d 0 h) w
  operand_of-Words OpType.imm_word l p w = any-Holds _ λ d. any-Holds _ λ u. any-Holds _ λ dl.
      bind-Holds (imm_word-word l.opcode w.opcode_fits d dl 0)
        λ op h. any-Holds _ λ u. filled_patch-Words op _ _ _ l h w
  operand_of-Words OpType.dir_word l p w = any-Holds _ λ d. any-Holds _ λ u. any-Holds _ λ dl.
      any-Holds _ λ u. any-Holds _ λ r. any-Holds _ λ u. any-Holds _ λ rl.
        bind-Holds (dir_word-word l.opcode w.opcode_fits d dl r rl)
          λ op h. filled-Words op 2 _ l h w
  operand_of-Words OpType.branch l p w =
      filled_patch-Words _ _ _ _ l (branch-word l.opcode w.opcode_fits 0) w
  operand_of-Words OpType.br_bit l p w = any-Holds _ λ q.
      bind-Holds (br_bit-word l.opcode w.opcode_fits q.0 0)
        λ op h. any-Holds _ λ u. filled_patch-Words op _ _ _ l h w
  operand_of-Words OpType.bit l p w =
      any-Holds _
        λ q. bind-Holds (bit-word l.opcode w.opcode_fits q.0) λ op h. filled-Words op 2 _ l h w
  operand_of-Words OpType.ldstr_bit l p w = any-Holds _ λ d. any-Holds _ λ u. any-Holds _ λ q.
      bind-Holds (ldstr_bit-word l.opcode w.opcode_fits d q.0) λ op h. filled-Words op 2 _ l h w
  operand_of-Words OpType.implied l p w = filled-Words _ 2 _ l w.opcode_fits w
  operand_of-Words OpType.dir_32 l p w =
      bind-Holds (address_at-Words t b l (start_at p) w)
        λ r v. filled-Words _ 4 _ r.0 w.opcode_fits v
  operand_of-Words OpType.ld_ind l p w = bind-Holds (get_reg-low t _) λ d h. any-Holds _ λ u.
      bind-Holds
        (addressing_mode-low t b l p 0 (next b (clear (next b (step_back (next b (start_at p)))))))
        λ mask k. filled-Words _ 2 _ l (dir_dual-word l.opcode w.opcode_fits d mask h k) w
  operand_of-Words OpType.str_ind l p w =
      bind-Holds (addressing_mode-low t b l p b',' (next b (start_at p))) λ mask k. any-Holds _ λ u.
        bind-Holds (get_reg-low t _)
          λ d h. filled-Words _ 2 _ l (dir_dual-word l.opcode w.opcode_fits d mask h k) w
  operand_of-Words OpType.ld_dir l p w = bind-Holds (get_reg-low t _) λ d h. any-Holds _ λ u.
      bind-Holds (address_at-Words t b l (next b (step_back (next b (start_at p)))) w)
        λ r v. filled-Words _ 4 _ r.0 (dir_sing-word l.opcode w.opcode_fits d h) v
  operand_of-Words OpType.str_dir l p w = bind-Holds (address_at-Words t b l (start_at p) w) λ r v.
      any-Holds _ λ u.
        bind-Holds (get_reg-low t _)
          λ d h. filled-Words _ 4 _ r.0 (dir_sing-word l.opcode w.opcode_fits d h) v
  operand_of-Words OpType.db_t l p w = fails
  operand_of-Words OpType.skip l p w = fails
  operand_of-Words OpType.dir_bit l p w = fails

  pub get_operand-Words :
      (l : Line) (p : ℕ) (d : Rows)
      → Words l
      → Holds (λ (r : Filled × Rows). Words r.0.line) (get_operand te t b l p d)
  unfolding get_operand operand_by op_db
  get_operand-Words l p d w = by_type l.type
    where
      taken :
          {m : Option Filled}
          → Holds (λ (f : Filled). Words f.line) m
          → Holds (λ (r : Filled × Rows). Words r.0.line) (with_rows d m)
      taken fails = fails
      taken (gives h) = gives h

      data_line : Holds (λ (r : Filled × Rows). Words r.0.line) (op_db t b l p d)
      data_line = any-Holds _ λ f. gives (record {
        opcode_fits = omega arith;
        opextra_fits = w.opextra_fits;
        address_fits = w.address_fits;
      })

      by_type :
          (type : OpType)
          → Holds (λ (r : Filled × Rows). Words r.0.line) (operand_by te t b type l p d)
      by_type OpType.db_t = data_line
      by_type type = taken (operand_of-Words type l p w)
