-- ===== src/Program/Cleanup/Laws.antt =====
-- Which lines `compile` of src/parse.c has cleared where it frees their texts.
use mikode.Prelude.{
  ℕ, zero, suc, ◌<◌, ◌≤◌, ◌≡◌, refl, arith, Bool, true, ◌||◌, List, [], ◌∷◌, Option, some, none,
  ltb, length, all_below,
}
use mathlib.Core.Path.{subst}
use mikode.Prelude.Chars.{◌>>=◌}
use mikode.Prelude.Holds.{Holds, given, gives, any-Holds, bind-Holds, known-Holds}
use mikode.Image.{File}
use mikode.Assembler.Token.{Buffer}
use mikode.Assembler.Symbols.{Tables}
use mikode.Assembler.Expression.{Evaluator}
use mikode.Assembler.Line.{Line, Rows}
use mikode.Assembler.Parse.{parse}
use mikode.Assembler.Compile.{Pass, place, pass_1, compile_lines, no_tables}
use mikode.Program.Text.{get_lines, count_newlines}
use mikode.Program.Text.Count.{get_lines-count}
use mikode.Program.Cleanup.{cleared, freeable, frees_set}

all_below_complete : (n : ℕ) (p : ℕ → Bool) → ((k : ℕ) → k < n → p k ≡ true) → all_below n p ≡ true
unfolding all_below
all_below_complete zero p h = refl
all_below_complete (suc n) p h =
    let now = h n (omega arith) in rw now (all_below_complete n p (λ k lt. h k (omega (arith, lt))))

freeable_all : (null_text : ℕ → Bool) (count n : ℕ) → count ≤ n → freeable null_text count n ≡ true
unfolding freeable
freeable_all null_text count n h =
    all_below_complete count (λ k. ltb k n || null_text k)
      λ k lt. let low : ltb k n ≡ true = ground (arith, h, lt) in rw low refl

module _ (te : Evaluator) (junk : List ℕ) where
  pass_1-cleared :
      (prev : Option Line) (t : Tables) (d : Rows) (text : List Buffer)
      → Holds
          (λ (q : Pass). cleared te junk prev t d text ≡ length text)
          (pass_1 te junk prev t d text)
  unfolding pass_1 cleared ◌>>=◌
  pass_1-cleared prev t d [] = gives refl
  pass_1-cleared prev t d (b ∷ rest) = known-Holds (parse te junk t d b) λ r parsed.
      known-Holds (place prev r.line) λ l placed.
        bind-Holds (pass_1-cleared (some l) r.tables r.rows rest)
          λ q h. gives (rw (parsed, placed) (omega (arith, h)))

  compile_lines-cleared :
      (rows : ℕ → ℕ → ℕ) (text : List Buffer)
      → Holds
          (λ (r : List Line × Rows).
            cleared te junk none no_tables (record { rows = rows; realloc_count = 1 }) text
            ≡ length text)
          (compile_lines te junk rows text)
  unfolding compile_lines
  compile_lines-cleared rows text =
      bind-Holds (pass_1-cleared none no_tables _ text) λ q h. any-Holds _ λ ls. gives h

  -- Where the two passes accept the lines of a file, `compile` frees no text that was not set,
  -- whatever the memory of the lines held when it was allocated.
  pub accepted-frees_set :
      (rows : ℕ → ℕ → ℕ) (line_buf : Buffer) (null_text : ℕ → Bool) (f : File)
      {r : List Line × Rows}
      → compile_lines te junk rows (get_lines f line_buf) ≡ some r
      → frees_set te junk rows line_buf null_text f ≡ true
  unfolding frees_set
  accepted-frees_set rows line_buf null_text f accepted =
      let start : Rows = record { rows = rows; realloc_count = 1 } in
      let n = cleared te junk none no_tables start (get_lines f line_buf) in
      let all_read : n ≡ length (get_lines f line_buf) = given (
        subst
          (Holds λ r.
            cleared te junk none no_tables start (get_lines f line_buf)
            ≡ length (get_lines f line_buf))
          accepted (compile_lines-cleared rows (get_lines f line_buf))) in
      freeable_all null_text (count_newlines f.length 0 f) n
        (omega (arith, all_read, get_lines-count f line_buf))
