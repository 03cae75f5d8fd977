-- ===== src/Tests/Text.antt =====
-- The statements about src/token.c, src/misc.c, src/directive.c and src/operand.c at concrete
-- texts.
use mikode.Prelude.{◌%◌, ◌≡◌, refl, arith, [], ◌∷◌, none, some, codes}
use mikode.Prelude.Chars.{char_at}
use mikode.Assembler.Token.{Buffer}
use mikode.Assembler.Token.Words.{done, step}
use mikode.Assembler.Symbols.{text, copy_10, put_equate, get_equate, put_def, find_def, get_def}
use mikode.Assembler.Symbols.Laws.{first_of, get_equate-put_equate}
use mikode.Assembler.Value.{get_val, val_8, val_16}
use mikode.Assembler.Value.Decimal.{decimal, get_val-decimal}
use mikode.Assembler.Expression.{Evaluator}
use mikode.Assembler.Opcodes.{Row, OpType, getopcode, find_row, same_name, tolower}
use mikode.Assembler.Line.{Rows, zero_line}
use mikode.Assembler.Encode.Laws.{Kept}
use mikode.Assembler.Operand.{get_operand}
use mikode.Assembler.Operand.Scanner.{get_reg}
use mikode.Assembler.Operand.Text.{reg_name, get_reg-put_def}
use mikode.Assembler.Operand.Meaning.{made, with_row, get_operand-Kept}
use mikode.Assembler.Compile.{no_tables}
use mikode.Handlers.Fields.{field_d, field_r}

abbrev add_row : Row
add_row = record { name = codes "Add"; type = OpType.dir_dual; opcode = 0x0c00 }

add_found : getopcode (codes "add") ≡ some add_row
unfolding getopcode find_row same_name tolower
add_found = refl

abbrev operands : Buffer
operands = char_at (codes " r3, r15\n")

abbrev no_value : Evaluator
no_value e vs = none

abbrev zero_rows : Rows
zero_rows = record { rows = λ i k. 0; realloc_count = 1 }

get_operand-Kept_example :
    Kept
      (made (get_operand no_value no_tables operands (with_row add_row zero_line) 0 zero_rows))
      field_d
      field_r
      0x0c00
      3
      15
get_operand-Kept_example =
    get_operand-Kept no_value no_tables operands zero_line zero_rows (codes "add") add_row 0
      (32 ∷ []) 1 3 3 (32 ∷ []) 5 15 8 add_found refl (omega arith) (omega arith) refl
      (step refl done) (step refl (step refl done)) refl refl (step refl done)
      (step refl (step refl (step refl done))) refl (omega arith) (omega arith)

get_val-decimal_example :
    (get_val no_tables (decimal 5 40000) val_16 ≡ some 40000)
    × (get_val no_tables (decimal 5 40000) val_8 ≡ some (40000 % 256))
get_val-decimal_example = get_val-decimal no_tables 40000 (omega arith)

get_equate-put_equate_example :
    get_equate (codes "lp") (put_equate (codes "lp") (some (codes "r1")) 258 no_tables)
    ≡ some (first_of (get_equate (codes "lp") no_tables) (text (copy_10 (codes "r1"))))
get_equate-put_equate_example =
    get_equate-put_equate (codes "lp") no_tables refl (omega arith) (some (codes "r1")) 258

fresh : get_def (codes "temp") no_tables ≡ none
unfolding get_def find_def
fresh = refl

get_reg-put_def_example :
    get_reg (put_def (codes "temp") (reg_name 11) no_tables) (codes "temp") ≡ some 11
get_reg-put_def_example =
    get_reg-put_def (codes "temp") no_tables 11 refl (omega arith) refl fresh (omega arith)
