-- ===== src/Assembler/Operand.antt =====
-- `get_operand` of src/operand.c: one function for each operand type, in Operand/, and the `switch`
-- over them. Every error of the source ends in a return of -1, here `none`.
pub mod Scanner
pub mod Registers
pub mod Values
pub mod Bytes
pub mod Sizes
pub mod Branches
pub mod Text
pub mod Meaning
pub mod Words
use mikode.Prelude.{ℕ, Option, some, none}
use mikode.Assembler.Token.{Buffer}
use mikode.Assembler.Symbols.{Tables}
use mikode.Assembler.Expression.{Evaluator}
use mikode.Assembler.Opcodes.{OpType}
use mikode.Assembler.Line.{Line, Rows}
use mikode.Assembler.Operand.Scanner.{Filled, with_rows}
use mikode.Assembler.Operand.Registers.{
  op_dir_sing, op_dir_dual, op_dir_std, op_dir_word, op_ld_ind, op_str_ind,
}
use mikode.Assembler.Operand.Values.{
  op_imm_byte, op_imm_word, op_branch, op_br_bit, op_bit, op_ldstr_bit,
}
use mikode.Assembler.Operand.Values.{op_implied, op_dir_32, op_ld_dir, op_str_dir}
use mikode.Assembler.Operand.Bytes.{op_db}

module _ (te_interp : Evaluator) (t : Tables) (b : Buffer) where
  unfoldable pub operand_of : OpType → Line → ℕ → Option Filled
  operand_of OpType.dir_sing l p = op_dir_sing t b l p
  operand_of OpType.dir_dual l p = op_dir_dual t b l p
  operand_of OpType.dir_std l p = op_dir_std t b l p
  operand_of OpType.imm_byte l p = op_imm_byte t b l p
  operand_of OpType.imm_word l p = op_imm_word t b l p
  operand_of OpType.dir_word l p = op_dir_word t b l p
  operand_of OpType.branch l p = op_branch b l p
  operand_of OpType.br_bit l p = op_br_bit te_interp t b l p
  operand_of OpType.bit l p = op_bit te_interp t b l p
  operand_of OpType.ldstr_bit l p = op_ldstr_bit te_interp t b l p
  operand_of OpType.implied l p = op_implied l p
  operand_of OpType.dir_32 l p = op_dir_32 t b l p
  operand_of OpType.ld_ind l p = op_ld_ind t b l p
  operand_of OpType.str_ind l p = op_str_ind t b l p
  operand_of OpType.ld_dir l p = op_ld_dir t b l p
  operand_of OpType.str_dir l p = op_str_dir t b l p
  operand_of OpType.db_t l p = none
  operand_of OpType.skip l p = none
  operand_of OpType.dir_bit l p = none

  operand_by : OpType → Line → ℕ → Rows → Option (Filled × Rows)
  unfolding operand_of
  operand_by OpType.db_t l p d = op_db t b l p d
  operand_by type l p d = with_rows d (operand_of type l p)

  unfoldable pub get_operand : Line → ℕ → Rows → Option (Filled × Rows)
  unfolding operand_by
  get_operand l p d = operand_by l.type l p d
