-- ===== src/Assembler/Operand/Meaning.antt =====
-- From the text of a DIR_DUAL line to the handler: src/token.c, src/operand.c and src/execute.c.
use mikode.Prelude.{
  ℕ, suc, ◌<◌, ◌≤◌, ◌≡◌, refl, ap, sym, ◌∙◌, true, List, Option, none, some, all, length,
}
use mathlib.Core.Path.{subst}
use mikode.Prelude.Chars.{isspace}
use mikode.Assembler.Token.{Buffer}
use mikode.Assembler.Token.Words.{Spells, is_blank}
use mikode.Assembler.Symbols.{Tables}
use mikode.Assembler.Expression.{Evaluator}
use mikode.Assembler.Opcodes.{Row, OpType, getopcode}
use mikode.Assembler.Line.{Line, Rows}
use mikode.Assembler.Encode.{enc_dir_dual}
use mikode.Assembler.Encode.Laws.{Kept, dual-Kept}
use mikode.Assembler.Operand.{operand_of, operand_by, get_operand}
use mikode.Assembler.Operand.Scanner.{Filled, with_rows}
use mikode.Assembler.Operand.Registers.{op_dir_dual}
use mikode.Assembler.Operand.Text.{reg_name, op_dir_dual-text}
use mikode.Handlers.Fields.{field_d, field_r}

abbrev pub made : Option (Filled × Rows) → Option ℕ
made none = none
made (some r) = some ((r.0).line.opcode)

-- The line as `getopcode` leaves it.
abbrev pub with_row : Row → Line → Line
with_row row l = record l { opcode = row.opcode; type = row.type }

dual_operand :
    (te : Evaluator) (t : Tables) (b : Buffer) (l : Line) (p : ℕ) (rows : Rows)
    → l.type ≡ OpType.dir_dual
    → get_operand te t b l p rows ≡ with_rows rows (op_dir_dual t b l p)
unfolding get_operand operand_by operand_of
dual_operand te t b l p rows typed = rw typed refl

-- A mnemonic of two registers and the text `rD,rR` behind it, with blanks before each register: the
-- line is accepted, its opcode goes to the handler of the mnemonic's row, and the handler takes out
-- the two registers of the text.
pub get_operand-Kept :
    (te : Evaluator) (t : Tables) (b : Buffer) (l : Line) (rows : Rows) (mnemonic : List ℕ)
    (row : Row) (p : ℕ) (blanks_d : List ℕ) (at_d d comma : ℕ) (blanks_r : List ℕ) (at_r r end : ℕ)
    → getopcode mnemonic ≡ some row
    → row.type ≡ OpType.dir_dual
    → d < 16
    → r < 16
    → all is_blank blanks_d ≡ true
    → Spells b p blanks_d at_d
    → Spells b at_d (reg_name d) comma
    → b comma ≡ b','
    → all is_blank blanks_r ≡ true
    → Spells b (suc comma) blanks_r at_r
    → Spells b at_r (reg_name r) end
    → isspace (b end) ≡ true
    → length blanks_d ≤ 500
    → length blanks_r ≤ 500
    → Kept (made (get_operand te t b (with_row row l) p rows)) field_d field_r row.opcode d r
get_operand-Kept te t b l rows mnemonic row p blanks_d at_d d comma blanks_r at_r r end found typed
      low_d low_r h₁ w₁ w₂ e h₂ w₃ w₄ e' k₁ k₂ =
    subst (λ made. Kept made field_d field_r row.opcode d r) (sym accepted)
      (dual-Kept mnemonic row d r found typed low_d low_r)
  where
    accepted :
        made (get_operand te t b (with_row row l) p rows) ≡ some (enc_dir_dual row.opcode d r)
    accepted = ap made (
        dual_operand te t b (with_row row l) p rows typed
        ∙ ap (with_rows rows) (
            op_dir_dual-text t b (with_row row l) p blanks_d at_d d comma blanks_r at_r r end low_d
              low_r h₁ w₁ w₂ e h₂ w₃ w₄ e' k₁ k₂))
