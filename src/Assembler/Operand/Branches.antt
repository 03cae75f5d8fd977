-- ===== src/Assembler/Operand/Branches.antt =====
-- What `get_operand` of src/operand.c leaves of a line with a branch: the opcode of its row, and a
-- patch.
use mikode.Prelude.{ℕ, ◌≡◌, refl, ap, ◌∙◌, sym, Bool, true, false, List, Option, some}
use mikode.Prelude.Holds.{Holds, fails, gives, any-Holds, weaken-Holds}
use mikode.Assembler.Token.{Buffer}
use mikode.Assembler.Symbols.{Tables}
use mikode.Assembler.Expression.{Evaluator}
use mikode.Assembler.Opcodes.{OpType, Row, getopcode}
use mikode.Assembler.Encode.{enc_branch}
use mikode.Assembler.Line.{Line, Rows}
use mikode.Assembler.Patch.{Patch}
use mikode.Assembler.Operand.{operand_of, operand_by, get_operand}
use mikode.Assembler.Operand.Scanner.{Filled, with_rows}
use mikode.Assembler.Operand.Values.{op_branch}
use mikode.Assembler.Operand.Bytes.{op_db}
use mikode.Assembler.Operand.Sizes.{Kept, operand_of-Kept}

abbrev pub is_branch : OpType → Bool
is_branch OpType.branch = true
is_branch type = false

-- A line has no branch, or the opcode of a BRANCH row that waits for its patch.
pub data Branching (l : Line) : Type 0 where
  no_branch : is_branch l.type ≡ false → Branching l
  to_label :
      (mnemonic : List ℕ) (row : Row)
      → getopcode mnemonic ≡ some row
      → row.type ≡ OpType.branch
      → l.opcode ≡ enc_branch row.opcode 0
      → l.patch ≡ Patch.branch
      → Branching l

with_rows-type :
    {l : Line} {n : ℕ} (d : Rows) {m : Option Filled}
    → Holds (Kept l n) m
    → Holds (λ (r : Filled × Rows). r.0.line.type ≡ l.type) (with_rows d m)
with_rows-type d fails = fails
with_rows-type d (gives k) = gives k.kept_type

operand_by-Branching :
    (te : Evaluator) (t : Tables) (b : Buffer) (type : OpType) (l : Line) (p : ℕ) (d : Rows)
    (mnemonic : List ℕ) (row : Row)
    → getopcode mnemonic ≡ some row
    → row.type ≡ type
    → l.type ≡ type
    → l.opcode ≡ row.opcode
    → Holds (λ (r : Filled × Rows). Branching r.0.line) (operand_by te t b type l p d)
unfolding operand_by operand_of op_branch op_db
operand_by-Branching te t b OpType.branch l p d mnemonic row found typed e o =
    gives (to_label mnemonic row found typed (ap (λ op. enc_branch op 0) o) refl)
operand_by-Branching te t b OpType.db_t l p d mnemonic row found typed e o =
    any-Holds _ λ f. gives (no_branch (ap is_branch e))
operand_by-Branching te t b type l p d mnemonic row found typed e o =
    weaken-Holds (with_rows-type d (operand_of-Kept te t b type l p))
      λ r k. no_branch (ap is_branch (k ∙ e))

pub get_operand-Branching :
    (te : Evaluator) (t : Tables) (b : Buffer) (l : Line) (p : ℕ) (d : Rows) (mnemonic : List ℕ)
    (row : Row)
    → getopcode mnemonic ≡ some row
    → l.type ≡ row.type
    → l.opcode ≡ row.opcode
    → Holds (λ (r : Filled × Rows). Branching r.0.line) (get_operand te t b l p d)
unfolding get_operand
get_operand-Branching te t b l p d mnemonic row found e o =
    operand_by-Branching te t b l.type l p d mnemonic row found (sym e) refl o
