-- ===== src/Assembler/Compile/Words.antt =====
-- The words of the lines that the two passes of `compile` in src/parse.c accept.
use mathlib.Core.Path.{subst}
use mikode.Prelude.{
  ℕ, ◌+◌, ◌<◌, ◌≡◌, refl, arith, not, List, [], ◌∷◌, Option, some, none, ltb, bit_and, bit_or,
  sub16, ◌<<◌,
}
use mikode.Prelude.Holds.{Holds, gives, fails, given, if_Holds, bind-Holds, known-Holds}
use mikode.Assembler.Token.{Buffer}
use mikode.Assembler.Symbols.{Tables}
use mikode.Assembler.Expression.{Evaluator}
use mikode.Assembler.Opcodes.{Row, getopcode}
use mikode.Assembler.Opcodes.Laws.{getopcode-all}
use mikode.Assembler.Line.{Line, Rows}
use mikode.Assembler.Patch.{Patch, Code, patch_line}
use mikode.Assembler.Operand.Words.{Words, get_operand-Words}
use mikode.Assembler.Operand.Words.Parts.{or_word, masked-lt, guarded}
use mikode.Assembler.Parse.{Parsed, parse}
use mikode.Assembler.Parse.Walk.{parse-Holds}
use mikode.Assembler.Compile.{
  Pass, place, assign_address, no_tables, put_labels, pass_1, pass_2, patched, label_text, code_of,
  compile_lines,
}
use mikode.Assembler.Compile.Branches.{Every, no_line, and_line, get_expr-fits}

row_fits : (mnemonic : List ℕ) (row : Row) → getopcode mnemonic ≡ some row → row.opcode < 65536
row_fits mnemonic row found =
    let low = getopcode-all (λ r. ltb r.opcode 65536) mnemonic row refl found in ground (arith, low)

parse-Words :
    (te : Evaluator) (junk : List ℕ) (t : Tables) (d : Rows) (b : Buffer)
    → Holds (λ (r : Parsed). Words r.line) (parse te junk t d b)
parse-Words te junk t d b =
    parse-Holds te junk t d b Words
      (λ label. record {
        opcode_fits = omega arith;
        opextra_fits = omega arith;
        address_fits = omega arith;
      })
      (λ c. record {
        opcode_fits = omega arith;
        opextra_fits = omega arith;
        address_fits = omega arith;
      })
      (λ a e h. record { opcode_fits = omega arith; opextra_fits = omega arith; address_fits = h })
      (λ label mnemonic row p found. get_operand-Words te t b _ p d (record {
        opcode_fits = row_fits mnemonic row found;
        opextra_fits = omega arith;
        address_fits = omega arith;
      }))
      (λ c l h. record {
        opcode_fits = h.opcode_fits;
        opextra_fits = h.opextra_fits;
        address_fits = h.address_fits;
      })

place-Words : (prev : Option Line) (l : Line) → Words l → Holds Words (place prev l)
unfolding place assign_address
place-Words none l h = gives h
place-Words (some prev) l h =
    if_Holds _
      (known-Holds _ λ u e.
        let room = guarded (not (ltb 0xffff (prev.address + prev.size))) u e in
        gives (record {
          opcode_fits = h.opcode_fits;
          opextra_fits = h.opextra_fits;
          address_fits = ground (arith, room);
        }))
      (gives h)

pass_1-Words :
    (te : Evaluator) (junk : List ℕ) (prev : Option Line) (t : Tables) (d : Rows)
    (lines : List Buffer)
    → Holds (λ (q : Pass). Every Words q.lines) (pass_1 te junk prev t d lines)
unfolding pass_1
pass_1-Words te junk prev t d [] = gives no_line
pass_1-Words te junk prev t d (b ∷ rest) = bind-Holds (parse-Words te junk t d b) λ r fits.
    bind-Holds (place-Words prev r.line fits) λ l placed.
      bind-Holds (pass_1-Words te junk (some l) r.tables r.rows rest)
        λ q later. gives (and_line placed later)

masks : (x y m n : ℕ) → m < 65536 → n < 65536 → bit_or (bit_and x m) (bit_and y n) < 65536
masks x y m n h k = or_word _ _ (masked-lt 16 x m h) (masked-lt 16 y n k)

-- What a patch leaves of the two words.
record Coded (c : Code) : Type 0 where
  opcode_fits : c.opcode < 65536
  opextra_fits : c.opextra < 65536

module _ (to : ℕ) (c : Code) (fits : Coded c) where
  or_Coded : (part : ℕ) → part < 65536 → Coded (record c { opcode = bit_or c.opcode part })
  or_Coded part h = record {
    opcode_fits = or_word c.opcode part fits.opcode_fits h;
    opextra_fits = fits.opextra_fits;
  }

  patch_line-Coded : (k : Patch) (from : ℕ) → to < 65536 → Holds Coded (patch_line k from to c)
  unfolding patch_line
  patch_line-Coded Patch.no_patch from h = gives fits
  patch_line-Coded Patch.branch from h =
      let low = masked-lt 7 (sub16 to from) 0x007f (omega arith) in
      if_Holds _ fails (gives (or_Coded (bit_and (sub16 to from) 0x007f << 3) (omega (arith, low))))
  patch_line-Coded Patch.dir32 from h =
      gives (record { opcode_fits = fits.opcode_fits; opextra_fits = h })
  patch_line-Coded Patch.vall from h =
      gives (or_Coded _ (masks _ _ _ _ (omega arith) (omega arith)))
  patch_line-Coded Patch.valh from h =
      gives (or_Coded _ (masks _ _ _ _ (omega arith) (omega arith)))
  patch_line-Coded Patch.imm_byte from h =
      gives (or_Coded _ (masks _ _ _ _ (omega arith) (omega arith)))
  patch_line-Coded Patch.imm_word from h =
      if_Holds _ fails (gives (or_Coded _ (masks _ _ _ _ (omega arith) (omega arith))))

module _ (te : Evaluator) (t : Tables) where
  patched-Words : (l : Line) (k : Patch) → Words l → Holds Words (patched te t l k)
  unfolding patched
  patched-Words l Patch.no_patch w = gives w
  patched-Words l k w = bind-Holds (get_expr-fits te t (label_text l) 0) λ r h.
      bind-Holds
        (patch_line-Coded r.0 (code_of l)
          (record { opcode_fits = w.opcode_fits; opextra_fits = w.opextra_fits }) k l.address h)
        λ c coded. gives (record {
          opcode_fits = coded.opcode_fits;
          opextra_fits = coded.opextra_fits;
          address_fits = w.address_fits;
        })

  pass_2-Words : {ls : List Line} → Every Words ls → Holds (Every Words) (pass_2 te t ls)
  unfolding pass_2
  pass_2-Words no_line = gives no_line
  pass_2-Words (and_line {l} h later) =
      bind-Holds (patched-Words l l.patch h)
        λ l' now. bind-Holds (pass_2-Words later) λ rest after'. gives (and_line now after')

passes-Words :
    (te : Evaluator) (junk : List ℕ) (rows : ℕ → ℕ → ℕ) (text : List Buffer)
    → Holds (λ (r : List Line × Rows). Every Words r.0) (compile_lines te junk rows text)
unfolding compile_lines
passes-Words te junk rows text = bind-Holds (pass_1-Words te junk none no_tables _ text) λ q fits.
    bind-Holds (pass_2-Words te (put_labels q.lines q.tables) fits) λ ls found. gives found

-- In every line of a program that the two passes accept, the opcode, the second word and the
-- address are below 2 to the 16, as their C type has it.
pub compile_lines-Words :
    (te : Evaluator) (junk : List ℕ) (rows : ℕ → ℕ → ℕ) (text : List Buffer) (ls : List Line)
    (d : Rows)
    → compile_lines te junk rows text ≡ some (ls, d)
    → Every Words ls
compile_lines-Words te junk rows text ls d accepted = given (
    subst (Holds (λ (r : List Line × Rows). Every Words r.0)) accepted
      (passes-Words te junk rows text))
