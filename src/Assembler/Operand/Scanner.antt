-- ===== src/Assembler/Operand/Scanner.antt =====
-- The moves of the scanner that the cases of `get_operand` share, and `get_reg`, of src/operand.c.
use mikode.Prelude.{
  ℕ, ◌+◌, ◌-◌, ◌*◌, true, not, List, [], Option, some, none, ◌==◌, ltb, if◌then◌else◌,
}
use mikode.Prelude.Chars.{c_str, char_at, strncpy, isdigit, ◌>>=◌, ◌>>◌, guard}
use mikode.Assembler.Token.{Buffer, Scan, get_token, get_patch_label}
use mikode.Assembler.Symbols.{Tables, get_def}
use mikode.Assembler.Expression.{max_lbl}
use mikode.Assembler.Line.{Line, Rows}
use mikode.Assembler.Patch.{Patch}

-- A line with its operands, and the index behind them.
pub record Filled : Type 0 where
  pub line : Line
  pub pos : ℕ

abbrev pub with_rows : Rows → Option Filled → Option (Filled × Rows)
with_rows d none = none
with_rows d (some f) = some (f, d)

-- `tok` before anything is written to it is taken as empty.
abbrev pub start_at : ℕ → Scan
start_at p = record { tok = []; pos = p; good = true }

-- `memset (tok, 0, 10)`, and the same with `(*b)--`
abbrev pub clear : Scan → Scan
clear s = record s { tok = [] }

abbrev pub step_back : Scan → Scan
step_back s = record s { tok = []; pos = s.pos - 1 }

-- The callers do not look whether `get_token` returned -1.
abbrev pub next : Buffer → Scan → Scan
next b s = get_token s.tok b s.pos

abbrev pub next_label : Buffer → Scan → Scan
next_label b s = get_patch_label s.tok b s.pos

-- Not `strncmp (tok, c, 1)`
abbrev pub starts : ℕ → Scan → Option (Unit {0})
starts c s = guard (char_at s.tok 0 == c)

-- `reg`, which is `b[1]` and, if that is a digit, `b[2]`
abbrev pub two_digits : ℕ → ℕ → ℕ
two_digits x y = if isdigit y then (x - b'0') * 10 + (y - b'0') else x - b'0'

abbrev pub read_reg : List ℕ → Option ℕ
read_reg s =
    let d = two_digits (char_at s 1) (char_at s 2) in
    guard (isdigit (char_at s 1)) >> (guard (not (ltb 15 d)) >> some d)

-- What `get_reg` makes of the text of a definition, whose first character it does not look at
-- again.
unfoldable pub get_text : Option (List ℕ) → Option ℕ
get_text o = do v ← o; guard (not (char_at v 0 == 0)); read_reg v

-- The name of a register, or of a definition. `none` is FAIL8.
unfoldable pub get_reg : Tables → List ℕ → Option ℕ
unfolding get_text
get_reg t tok =
    let s = c_str tok in if char_at s 0 == b'r' then read_reg s else get_text (get_def s t)

-- `strncpy (in->patch_label, tok, MAX_LBL)` and the kind of the patch
abbrev pub put_patch : Patch → Scan → Line → Line
put_patch k s l = record l { patch = k; patch_label = c_str (strncpy max_lbl (c_str s.tok)) }

abbrev pub filled : ℕ → ℕ → ℕ → Line → Option Filled
filled op size p l = some (record { line = record l { opcode = op; size = size }; pos = p })
