-- ===== src/Program/Cleanup.antt =====
-- What stands behind `fatal` in `compile` of src/parse.c: it frees the text of every line that was
-- allocated, also of those that the first pass has not come to. The other pointers that it frees are
-- all set.
pub mod Laws
use mikode.Prelude.{ℕ, zero, ◌+◌, Bool, List, [], ◌∷◌, Option, some, none, ltb, ◌||◌, all_below}
use mikode.Prelude.Chars.{◌>>=◌}
use mikode.Image.{File}
use mikode.Assembler.Token.{Buffer}
use mikode.Assembler.Symbols.{Tables}
use mikode.Assembler.Expression.{Evaluator}
use mikode.Assembler.Line.{Line, Rows}
use mikode.Assembler.Parse.{Parsed, parse}
use mikode.Assembler.Compile.{place, no_tables}
use mikode.Program.Text.{get_lines, count_newlines}

abbrev pub lines_of : Option ℕ → ℕ
lines_of none = 0
lines_of (some n) = n

module _ (te_interp : Evaluator) (junk : List ℕ) where
  -- How many lines of the array the first pass clears, by the `memset` of `parse`; the line that it
  -- refuses is the last of them.
  unfoldable pub cleared : Option Line → Tables → Rows → List Buffer → ℕ
  unfolding place
  cleared prev t d [] = 0
  cleared prev t d (b ∷ rest) =
      1
      + lines_of (do
        r ← parse te_interp junk t d b
        l ← place prev r.line
        some (cleared (some l) r.tables r.rows rest))

-- Whether `free` can be called on the text of each of `count` lines: those that were cleared have a
-- copy of their text or a null pointer, and `null_text` says whether the memory of the array had
-- a null pointer there when it was allocated.
unfoldable pub freeable : (ℕ → Bool) → ℕ → ℕ → Bool
unfolding all_below
freeable null_text count n = all_below count (λ k. ltb k n || null_text k)

-- The same for a file. Behind the first pass every line that was read is cleared.
unfoldable pub frees_set : Evaluator → List ℕ → (ℕ → ℕ → ℕ) → Buffer → (ℕ → Bool) → File → Bool
unfolding freeable cleared get_lines count_newlines
frees_set te_interp junk rows line_buf null_text f =
    freeable null_text (count_newlines f.length 0 f) (
      cleared te_interp junk none no_tables (record { rows = rows; realloc_count = 1 })
        (get_lines f line_buf))
