-- ===== src/Assembler/Parse/Walk.antt =====
-- What holds of every line that `parse` of src/parse.c accepts, from what holds of its parts.
use mikode.Prelude.{ℕ, ◌<◌, ◌≡◌, ap, ◌∙◌, arith, true, false, List, [], some, ◌==◌, codes}
use mikode.Prelude.Chars.{isspace, char_at}
use mikode.Prelude.Holds.{Holds, gives, if_Holds, if_by-Holds, any-Holds, bind-Holds, known-Holds}
use mikode.Assembler.Token.{Buffer, Scan}
use mikode.Assembler.Token.Laws.{get_token-head}
use mikode.Assembler.Symbols.{Tables}
use mikode.Assembler.Value.Fits.{get_val-fits}
use mikode.Assembler.Directive.{DirType, equ_t, def_t, get_org}
use mikode.Assembler.Expression.{Evaluator}
use mikode.Assembler.Opcodes.{Row, getopcode}
use mikode.Assembler.Line.{Line, Rows, zero_line}
use mikode.Assembler.Operand.{get_operand}
use mikode.Assembler.Operand.Scanner.{Filled, next, start_at}
use mikode.Assembler.Parse.{
  Parsed, nocode, parse, begins, at_mnemonic, after_mnemonic, labelled, comment_at, directive,
}

-- A line that does not start with a space has a first token that is no newline.
not_newline : (c : ℕ) → isspace c ≡ false → (c == b'\n') ≡ false
not_newline c h = ground arith

first_token :
    (b : Buffer) → isspace (b 0) ≡ false → (char_at (next b (start_at 0)).tok 0 == b'\n') ≡ false
first_token b h = ap (λ c. c == b'\n') (get_token-head [] b 0 h) ∙ not_newline (b 0) h

get_org-fits : (t : Tables) (b : Buffer) → Holds (λ a. a < 65536) (get_org t b 0)
unfolding get_org
get_org-fits t b = any-Holds _ λ s. any-Holds _ λ u. get_val-fits t _ _

module _ (te : Evaluator) (junk : List ℕ) (t : Tables) (d : Rows) (b : Buffer) (P : Line → Type 0)
    (blank : (label : List ℕ) → P (record zero_line { label = label; opcode = nocode }))
    (commented : (c : List ℕ) → P (record zero_line { comment = c; opcode = nocode }))
    (org : (a : ℕ)
      → begins (codes ".org") b ≡ true
      → a < 65536
      → P (record zero_line { address = a; opcode = nocode }))
    (operand : (label mnemonic : List ℕ) (row : Row) (p : ℕ)
      → getopcode mnemonic ≡ some row
      → Holds
          (λ (r : Filled × Rows). P r.0.line)
          (get_operand te t b
            (record zero_line { label = label; opcode = row.opcode; type = row.type })
            p
            d))
    (comment : (c : List ℕ) (l : Line) → P l → P (record l { comment = c })) where
  after_mnemonic-Holds :
      (label : List ℕ) (s : Scan)
      → Holds
          (λ (r : Parsed). P r.line)
          (after_mnemonic te junk t d b (record zero_line { label = label }) s)
  unfolding after_mnemonic comment_at
  after_mnemonic-Holds label s = known-Holds _ λ row found.
      bind-Holds (operand label _ row _ found) λ f h.
        bind-Holds (if_Holds _ (any-Holds _ λ c. gives (comment c f.0.line h)) (gives h))
          λ l k. gives k

  at_mnemonic-Holds :
      (label : List ℕ) (p : ℕ)
      → Holds
          (λ (r : Parsed). P r.line)
          (at_mnemonic te junk t d b (record zero_line { label = label }) p)
  unfolding at_mnemonic
  at_mnemonic-Holds label p =
      if_Holds _ (gives (blank label)) (after_mnemonic-Holds label (next b (start_at p)))

  labelled-Holds : isspace (b 0) ≡ false → Holds (λ (r : Parsed). P r.line) (labelled te junk t d b)
  unfolding labelled
  labelled-Holds h = rw (first_token b h) (any-Holds _ λ u. at_mnemonic-Holds _ _)

  directive-Holds :
      (type : DirType) → Holds (λ (r : Parsed). P r.line) (directive te junk t d b type)
  unfolding directive
  directive-Holds type = any-Holds _ λ t'. gives (blank [])

  pub parse-Holds : Holds (λ (r : Parsed). P r.line) (parse te junk t d b)
  unfolding parse comment_at
  parse-Holds =
      if_by-Holds _ (λ e. at_mnemonic-Holds [] 0)
        λ no_space.
          if_Holds _
            (bind-Holds {Q = λ l. P (record l { opcode = nocode })}
              (any-Holds _ λ c. gives (commented c)) λ l h. gives h)
            (if_Holds _ (directive-Holds def_t) (
              if_Holds _ (directive-Holds equ_t) (
                if_by-Holds _
                  (λ is_org. bind-Holds (get_org-fits t b) λ a h. gives (org a is_org h))
                  λ e. labelled-Holds no_space)))
