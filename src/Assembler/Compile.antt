-- ===== src/Assembler/Compile.antt =====
-- The two passes of `compile` in src/parse.c over the lines of a file, up to the file that
-- `write_asm` writes. A jump to `fatal` is `none`: then nothing is written.
pub mod Layout
pub mod Load
pub mod Branches
pub mod Words
use mathlib.Core.Option
use mikode.Prelude.{
  ℕ, ◌+◌, ◌-◌, Bool, not, List, [], ◌∷◌, map, Option, some, none, ◌==◌, ltb, if◌then◌else◌, u16,
  length,
}
use mikode.Prelude.Chars.{c_str, char_at, strncpy, ◌>>=◌, ◌>>◌, guard}
use mikode.Assembler.Token.{Buffer}
use mikode.Assembler.Symbols.{Tables, put_equate}
use mikode.Assembler.Expression.{Evaluator, max_lbl, get_expr}
use mikode.Assembler.Line.{Line, Rows, object_line}
use mikode.Assembler.Parse.{Parsed, parse}
use mikode.Assembler.Patch.{Patch, Code, patch_line}
use mikode.Image.{File, write_asm}

-- `prev.address + prev.size` unless the line has an address; `none` is a value above 0xffff.
unfoldable pub assign_address : Line → Line → Option Line
assign_address prev l =
    let check = prev.address + prev.size in
    if l.address == 0
    then (guard (not (ltb 0xffff check)) >> some (record l { address = check }))
    else some l

-- The first line keeps the address that it has.
unfoldable pub place : Option Line → Line → Option Line
unfolding assign_address
place none l = some l
place (some prev) l = assign_address prev l

pub record Pass : Type 0 where
  pub lines : List Line
  pub tables : Tables
  pub rows : Rows

module _ (te_interp : Evaluator) (junk : List ℕ) where
  -- The loop of pass 1; `prev` is `in[i - 1]`.
  unfoldable pub pass_1 : Option Line → Tables → Rows → List Buffer → Option Pass
  unfolding place
  pass_1 prev t d [] = some (record { lines = []; tables = t; rows = d })
  pass_1 prev t d (b ∷ rest) = do
    r ← parse te_interp junk t d b
    l ← place prev r.line
    q ← pass_1 (some l) r.tables r.rows rest
    some (record q { lines = l ∷ q.lines })

-- A label without its last character, the colon.
abbrev pub drop_last : List ℕ → List ℕ
drop_last [] = []
drop_last (c ∷ []) = []
drop_last (c ∷ d ∷ s) = c ∷ drop_last (d ∷ s)

abbrev put_label : Line → Tables → Tables
put_label l t = if length l.label == 0 then t else put_equate (drop_last l.label) none l.address t

-- The loop over `k`, which makes an equate of each label.
unfoldable pub put_labels : List Line → Tables → Tables
put_labels [] t = t
put_labels (l ∷ rest) t = put_labels rest (put_label l t)

abbrev code_of : Line → Code
code_of l = record { opcode = l.opcode; opextra = l.opextra }

abbrev put_code : Line → Code → Line
put_code l c = record l { opcode = c.opcode; opextra = c.opextra }

-- `plabelc`, as memory
abbrev pub label_text : Line → Buffer
label_text l = char_at (c_str (strncpy max_lbl l.patch_label))

unfoldable pub patched : Evaluator → Tables → Line → Patch → Option Line
patched te_interp t l Patch.no_patch = some l
patched te_interp t l k = do
  (addr_to, q) ← get_expr te_interp t (label_text l) 0
  c ← patch_line k l.address addr_to (code_of l)
  some (put_code l c)

-- The loop over `j`.
unfoldable pub pass_2 : Evaluator → Tables → List Line → Option (List Line)
unfolding patched
pass_2 te_interp t [] = some []
pass_2 te_interp t (l ∷ rest) = do
  l' ← patched te_interp t l l.patch
  rest' ← pass_2 te_interp t rest
  some (l' ∷ rest')

abbrev pub no_tables : Tables
no_tables = record { equates = []; defs = [] }

-- The lines as they stand when the file is written, and the data rows. `rows` is what the rows hold
-- before anything is written to them.
unfoldable pub compile_lines :
    Evaluator → List ℕ → (ℕ → ℕ → ℕ) → List Buffer → Option (List Line × Rows)
unfolding pass_1 put_labels pass_2
compile_lines te_interp junk rows text = do
  q ← pass_1 te_interp junk none no_tables (record { rows = rows; realloc_count = 1 }) text
  ls ← pass_2 te_interp (put_labels q.lines q.tables) q.lines
  some (ls, q.rows)

unfoldable pub compile : Evaluator → List ℕ → (ℕ → ℕ → ℕ) → List Buffer → Option File
unfolding compile_lines
compile te_interp junk rows text = do
  (ls, d) ← compile_lines te_interp junk rows text
  some (write_asm d.rows (map object_line ls))
