-- ===== src/Assembler/Compile/Load.antt =====
-- What `load` of src/load.c makes of a file that `compile` of src/parse.c has written.
use mathlib.Core.Path.{subst}
use mikode.Prelude.{
  ℕ, ◌+◌, ◌<◌, ◌≤◌, ◌≡◌, refl, sym, ap, arith, inr, true, List, [], ◌∷◌, ◌++◌, map, Option, some,
  none, length,
}
use mikode.Prelude.Holds.{Holds, gives, given, bind-Holds}
use mikode.Prelude.Chars.{◌>>=◌}
use mikode.Assembler.Token.{Buffer}
use mikode.Assembler.Expression.{Evaluator}
use mikode.Assembler.Line.{Line, Rows, object_line}
use mikode.Assembler.Operand.Sizes.{Sized, coded, bare}
use mikode.Assembler.Compile.{no_tables, put_labels, compile_lines, compile}
use mikode.Assembler.Compile.Layout.{
  no_org, Follows, ends, next, FollowsFrom, here, later, pass_1-FollowsFrom, pass_2-FollowsFrom,
}
use mikode.Assembler.Operand.Words.{Words}
use mikode.Assembler.Compile.Branches.{Every, and_line}
use mikode.Assembler.Compile.Words.{compile_lines-Words}
use mikode.Image.{File, load, write_asm, has_extra}
use mikode.Image.Write.{Apart, none_left, beside}
use mikode.Image.Load.{Fetches, load-write_asm, load-write_asm_extra}

compile_lines-FollowsFrom :
    (te : Evaluator) (junk : List ℕ) (rows : ℕ → ℕ → ℕ) (before : List Buffer) (b : Buffer)
    (after : List Buffer)
    → no_org after ≡ true
    → Holds
        (λ (r : List Line × Rows). FollowsFrom (length before) r.0)
        (compile_lines te junk rows (before ++ (b ∷ after)))
unfolding compile_lines
compile_lines-FollowsFrom te junk rows before b after h =
    bind-Holds (pass_1-FollowsFrom te junk none no_tables _ before b after h) λ q found.
      bind-Holds (pass_2-FollowsFrom te (put_labels q.lines q.tables) found)
        λ ls found'. gives found'

-- The line with the given number, and those behind it.
found_at :
    (before : List Line) (l : Line) (after : List Line)
    → FollowsFrom (length before) (before ++ (l ∷ after))
    → Sized l × Follows l after
found_at [] l after (here sized follows) = (sized, follows)
found_at (c ∷ before) l after (later found) = found_at before l after found

every_at :
    {P : Line → Type 0} (before : List Line) (l : Line) (after : List Line)
    → Every P (before ++ (l ∷ after))
    → P l
every_at [] l after (and_line now others) = now
every_at (c ∷ before) l after (and_line now others) = every_at before l after others

follows-Apart :
    {p : Line} {ls : List Line} (a n : ℕ)
    → a + n ≤ p.address + p.size
    → Follows p ls
    → Apart a n (map object_line ls)
follows-Apart a n h ends = none_left
follows-Apart a n h (next at sized follows) =
    beside (inr (omega arith)) (follows-Apart a n (omega arith) follows)

two_bytes : {l : Line} → Sized l → l.opcode < 0xffff → 2 ≤ l.size
two_bytes {l} (coded e h) k = ground arith
two_bytes (bare e h m) k = omega arith

four_bytes : {l : Line} → Sized l → l.opcode < 0xffff → has_extra l.type ≡ true → 4 ≤ l.size
four_bytes {l} (coded e h) k x = ground arith
four_bytes (bare e h m) k x = absurd (omega arith)

map-append :
    (before : List Line) (l : Line) (after : List Line)
    → map object_line (before ++ (l ∷ after))
      ≡ map object_line before ++ (object_line l ∷ map object_line after)
map-append [] l after = refl
map-append (c ∷ before) l after = ap (◌∷◌ (object_line c)) (map-append before l after)

-- `compile` writes a file that `load` takes in, and at the address the memory then has the word.
pub record Runs (compiled : Option File) (fresh : ℕ → ℕ) (a v : ℕ) : Type 0 where
  pub file : File
  pub written : compiled ≡ some file
  pub fetches : Fetches (load fresh file) a v

module _ (te : Evaluator) (junk : List ℕ) (rows : ℕ → ℕ → ℕ) (fresh : ℕ → ℕ) (before : List Buffer)
    (b : Buffer) (after : List Buffer) (ls : List Line) (l : Line) (rest : List Line) (d : Rows)
    (accepted : compile_lines te junk rows (before ++ (b ∷ after)) ≡ some (ls ++ (l ∷ rest), d))
    (same : length ls ≡ length before) (plain : no_org after ≡ true) (no_data : l.dataidx ≡ 0)
    (code : l.opcode < 0xffff)
    (fits : (write_asm d.rows (map object_line (ls ++ (l ∷ rest)))).length ≤ 0xffff + 8) where
  found : Sized l × Follows l rest
  found = found_at ls l rest (
      subst (λ n. FollowsFrom n (ls ++ (l ∷ rest))) (sym same)
        (given (
          subst (Holds (λ (r : List Line × Rows). FollowsFrom (length before) r.0)) accepted
            (compile_lines-FollowsFrom te junk rows before b after plain))))

  small : Words l
  small = every_at ls l rest (compile_lines-Words te junk rows (before ++ (b ∷ after)) _ d accepted)

  -- A word that is fetched from the lines, cut at this one, is fetched from the file of `compile`.
  compiled-Runs :
      (a v : ℕ)
      → Fetches
          (load fresh
            (write_asm d.rows (map object_line ls ++ (object_line l ∷ map object_line rest))))
          a
          v
      → Runs (compile te junk rows (before ++ (b ∷ after))) fresh a v
  unfolding compile ◌>>=◌
  compiled-Runs a v h = record {
    file = write_asm d.rows (map object_line (ls ++ (l ∷ rest)));
    written =
        ap (λ m. m >>= λ (r : List Line × Rows). some (write_asm r.1.rows (map object_line r.0)))
          accepted;
    fetches =
        subst (λ parts. Fetches (load fresh (write_asm d.rows parts)) a v)
          (sym (map-append ls l rest)) h;
  }

  fits_cut :
      (write_asm d.rows (map object_line ls ++ (object_line l ∷ map object_line rest))).length
      ≤ 0xffff + 8
  fits_cut =
      subst (λ parts. (write_asm d.rows parts).length ≤ 0xffff + 8) (map-append ls l rest) fits

  -- What is assembled is what the emulator fetches: for a line of a program that the two passes
  -- accept, behind which no `.org` stands, that has an opcode and no data and lies below the
  -- addresses of the screen, if the file fits, `compile` writes a file that `load` takes in
  -- whatever the memory held before, and the word at the line's address is then its opcode.
  pub compile-Runs :
      l.address + 2 ≤ 0xc000
      → Runs (compile te junk rows (before ++ (b ∷ after))) fresh l.address l.opcode
  compile-Runs below = compiled-Runs l.address l.opcode (
      load-write_asm d.rows fresh (map object_line ls) (object_line l) (map object_line rest)
        no_data code below
        (follows-Apart l.address 2 (omega (arith, two_bytes found.0 code)) found.1) fits_cut)

  -- The same for the second word: for a line of a program that the two passes accept, behind which
  -- no `.org` stands, that has an opcode, a second word and no data, and lies with both below the
  -- addresses of the screen, if the file fits, `compile` writes a file that `load` takes in whatever
  -- the memory held before, and the word two bytes behind the line's address is then the second
  -- word.
  pub compile-Runs_extra :
      has_extra l.type ≡ true
      → l.address + 4 ≤ 0xc000
      → Runs (compile te junk rows (before ++ (b ∷ after))) fresh (l.address + 2) l.opextra
  compile-Runs_extra extra below = compiled-Runs (l.address + 2) l.opextra (
      load-write_asm_extra d.rows fresh (map object_line ls) (object_line l) (map object_line rest)
        no_data code extra small.opextra_fits below
        (follows-Apart (l.address + 2) 2 (omega (arith, four_bytes found.0 code extra)) found.1)
        fits_cut)
