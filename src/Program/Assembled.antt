-- ===== src/Program/Assembled.antt =====
-- From the text of a program to the word that the emulator fetches, by two runs of the program.
use mikode.Prelude.{
  ℕ, ◌+◌, ◌≡◌, ◌≤◌, ◌<◌, sym, ap, ◌∙◌, Bool, true, List, ◌∷◌, ◌++◌, some, map, length,
}
use mathlib.Core.Path.{subst}
use mikode.Prelude.Chars.{◌>>=◌}
use mikode.Image.{File, write_asm, load}
use mikode.Image.Load.{Fetches}
use mikode.Assembler.Token.{Buffer}
use mikode.Assembler.Expression.{Evaluator}
use mikode.Assembler.Line.{Line, Rows, object_line}
use mikode.Assembler.Compile.{compile_lines, compile}
use mikode.Assembler.Compile.Layout.{no_org}
use mikode.Assembler.Compile.Load.{Runs, compile-Runs}
use mikode.Program.{Disk}
use mikode.Program.Text.{get_lines}
use mikode.Program.Compile.{list_name}
use mikode.Program.Names.{source}
use mikode.Program.Run.{Host}
use mikode.Program.Laws.{AssembledAndRun, assembled-AndRun}

some_inj : {A : Type 0} {a b : A} → some a ≡ some b → a ≡ b
some_inj e = cc

-- The file of `Runs` is the one that the lines make.
Runs-Fetches :
    (te : Evaluator) (junk : List ℕ) (rows : ℕ → ℕ → ℕ) (fresh : ℕ → ℕ) (text : List Buffer)
    {ls : List Line} {d : Rows} (a v : ℕ)
    → compile_lines te junk rows text ≡ some (ls, d)
    → Runs (compile te junk rows text) fresh a v
    → Fetches (load fresh (write_asm d.rows (map object_line ls))) a v
unfolding compile ◌>>=◌
Runs-Fetches te junk rows fresh text a v accepted r =
    let made =
      ap (λ m. m >>= λ (q : List Line × Rows). some (write_asm q.1.rows (map object_line q.0)))
        accepted in
    subst (λ g. Fetches (load fresh g) a v) (some_inj (sym r.written ∙ made)) r.fetches

module _ (te : Evaluator) (junk : List ℕ) (rows : ℕ → ℕ → ℕ) (line_buf : Buffer)
    (null_text : ℕ → Bool) (h : Host) (fuel : ℕ) where
  -- For a source file with a name that fits the arrays, which can be read, if the listing and the
  -- object file can be written: a line of its text that the passes accept, behind which no `.org`
  -- stands, that has an opcode and no data and lies below the addresses of the screen, if the object
  -- file fits. The program on the source then ends with 0, and on the name without its ending with -r
  -- it runs a memory that has the opcode at the line's address, from the machine that is all zero.
  pub main-AssembledAndRun :
      (stem : List ℕ) (disk : Disk) (f : File)
      → length stem < 23
      → disk.file (source stem) ≡ some f
      → disk.writable (list_name (source stem)) ≡ true
      → disk.writable stem ≡ true
      → (before : List Buffer) (b : Buffer) (after : List Buffer)
      → get_lines f line_buf ≡ before ++ (b ∷ after)
      → (ls : List Line) (l : Line) (rest : List Line) (d : Rows)
      → compile_lines te junk rows (before ++ (b ∷ after)) ≡ some (ls ++ (l ∷ rest), d)
      → length ls ≡ length before
      → no_org after ≡ true
      → l.dataidx ≡ 0
      → l.opcode < 0xffff
      → (write_asm d.rows (map object_line (ls ++ (l ∷ rest)))).length ≤ 0xffff + 8
      → l.address + 2 ≤ 0xc000
      → AssembledAndRun te junk rows line_buf null_text h fuel stem disk l.address l.opcode
  main-AssembledAndRun stem disk f short there list_ok object_ok before b after text ls l rest d
        accepted same plain no_data code fits below =
      let whole : compile_lines te junk rows (get_lines f line_buf) ≡ some (ls ++ (l ∷ rest), d) =
        ap (compile_lines te junk rows) text ∙ accepted in
      let run =
        compile-Runs te junk rows h.fresh before b after ls l rest d accepted same plain no_data
          code fits below in
      assembled-AndRun te junk rows line_buf null_text h fuel stem disk f short there list_ok
        object_ok whole l.address l.opcode
        (Runs-Fetches te junk rows h.fresh (before ++ (b ∷ after)) l.address l.opcode accepted run)
