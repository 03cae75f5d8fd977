-- ===== src/Assembler/Parse.antt =====
-- `parse` of src/parse.c: one line of the program.
pub mod Layout
pub mod Walk
use mikode.Prelude.{
  ℕ, ◌+◌, ◌-◌, Bool, true, ◌&&◌, List, [], ◌∷◌, Option, some, none, ◌==◌, if◌then◌else◌, codes,
}
use mikode.Prelude.Chars.{c_str, char_at, isspace, ◌>>=◌, ◌>>◌, guard}
use mikode.Assembler.Token.{Buffer, Scan, get_token, get_comment}
use mikode.Assembler.Symbols.{Tables}
use mikode.Assembler.Directive.{DirType, equ_t, def_t, get_directive, get_org}
use mikode.Assembler.Expression.{Evaluator}
use mikode.Assembler.Opcodes.{Row, getopcode}
use mikode.Assembler.Line.{Line, Rows, zero_line}
use mikode.Assembler.Operand.{get_operand}
use mikode.Assembler.Operand.Scanner.{Filled, start_at, next}

abbrev pub nocode : ℕ
nocode = 0xffff

-- What a line changes: itself, the tables and the data.
pub record Parsed : Type 0 where
  pub line : Line
  pub tables : Tables
  pub rows : Rows

-- `strncmp (b, text, 4) == 0` for a text of four characters
abbrev pub begins : List ℕ → Buffer → Bool
begins [] b = true
begins (c ∷ s) b = b 0 == c && begins s (λ i. b (i + 1))

module _ (te_interp : Evaluator) (junk : List ℕ) (t : Tables) (d : Rows) (b : Buffer) where
  abbrev done : Line → Option Parsed
  done l = some (record { line = l; tables = t; rows = d })

  abbrev done_with : Tables → Option Parsed
  done_with t' =
      some (record { line = record zero_line { opcode = nocode }; tables = t'; rows = d })

  comment_at : ℕ → Line → Option Line
  comment_at p l = do c ← get_comment b p; some (record l { comment = c })

  -- From the mnemonic's token on.
  after_mnemonic : Line → Scan → Option Parsed
  unfolding comment_at
  after_mnemonic l s = do
    r ← getopcode (c_str s.tok)
    let l₁ : Line = record l { opcode = r.opcode; type = r.type }
    (f, d₁) ← get_operand te_interp t b l₁ s.pos d
    let s₁ = next b (start_at f.pos)
    l₂ ← if char_at s₁.tok 0 == b';' then comment_at (s₁.pos - 1) f.line else some f.line
    some (record { line = l₂; tables = t; rows = d₁ })

  -- From behind the label on, which may be a blank line.
  at_mnemonic : Line → ℕ → Option Parsed
  unfolding after_mnemonic
  at_mnemonic l p =
      let s = next b (start_at p) in
      if char_at s.tok 0 == b'\n'
      then done (record l { size = 0; opcode = nocode })
      else after_mnemonic l s

  labelled : Option Parsed
  unfolding at_mnemonic
  labelled =
      let s = next b (start_at 0) in
      if char_at s.tok 0 == b'\n'
      then done zero_line
      else (guard (b (s.pos - 1) == b':')
          >> at_mnemonic (record zero_line { label = c_str s.tok }) s.pos)

  directive : DirType → Option Parsed
  directive type = do t' ← get_directive junk t b 0 type; done_with t'

  unfoldable pub parse : Option Parsed
  unfolding at_mnemonic labelled directive comment_at
  parse =
      if isspace (b 0)
      then at_mnemonic zero_line 0
      else if b 0 == b';'
      then (do l ← comment_at 0 zero_line; done (record l { opcode = nocode }))
      else if begins (codes ".def") b
      then directive def_t
      else if begins (codes ".equ") b
      then directive equ_t
      else if begins (codes ".org") b
      then (do
        a ← get_org t b 0
        done (record zero_line { address = a; size = 0; opcode = nocode }))
      else labelled
