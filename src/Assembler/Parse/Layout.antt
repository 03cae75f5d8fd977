-- ===== src/Assembler/Parse/Layout.antt =====
-- What `parse` of src/parse.c leaves of a line: its address, which only `.org` sets, and its size.
use mikode.Prelude.{ℕ, ◌<◌, ◌≡◌, refl, ◌∙◌, true, List, codes}
use mikode.Prelude.Holds.{Holds, weaken-Holds}
use mikode.Assembler.Token.{Buffer}
use mikode.Assembler.Symbols.{Tables}
use mikode.Assembler.Expression.{Evaluator}
use mikode.Assembler.Line.{Line, Rows, zero_line}
use mikode.Assembler.Operand.Sizes.{Sized, coded, bare, Placed, get_operand-Placed}
use mikode.Assembler.Parse.{Parsed, parse, begins}
use mikode.Assembler.Parse.Walk.{parse-Holds}

-- A line of the program: it starts at 0 and is sized, or it is an `.org`.
pub data Entry (b : Buffer) (l : Line) : Type 0 where
  at_zero : Placed zero_line l → Entry b l
  by_org : begins (codes ".org") b ≡ true → l.address < 65536 → Sized l → Entry b l

from_zero : {l l' : Line} → Placed l l' → l.address ≡ 0 → Placed zero_line l'
from_zero h e = record { address_kept = h.address_kept ∙ e; sized = h.sized }

with_comment : {b : Buffer} (c : List ℕ) (l : Line) → Entry b l → Entry b (record l { comment = c })
with_comment c l (at_zero h) =
    at_zero (record { address_kept = h.address_kept; sized = same_size c h.sized })
  where
    same_size : (c : List ℕ) → Sized l → Sized (record l { comment = c })
    same_size c (coded e k) = coded e k
    same_size c (bare e k m) = bare e k m
with_comment c l (by_org e h (coded f k)) = by_org e h (coded f k)
with_comment c l (by_org e h (bare f k m)) = by_org e h (bare f k m)

-- Every line that is accepted is an entry.
pub parse-Entry :
    (te : Evaluator) (junk : List ℕ) (t : Tables) (d : Rows) (b : Buffer)
    → Holds (λ (r : Parsed). Entry b r.line) (parse te junk t d b)
parse-Entry te junk t d b =
    parse-Holds te junk t d b (Entry b)
      (λ label. at_zero (record { address_kept = refl; sized = bare refl refl refl }))
      (λ c. at_zero (record { address_kept = refl; sized = bare refl refl refl }))
      (λ a e h. by_org e h (bare refl refl refl))
      (λ label mnemonic row p found.
        weaken-Holds (get_operand-Placed te t b _ p d refl refl) λ r h. at_zero (from_zero h refl))
      with_comment
