-- ===== src/Assembler/Expression.antt =====
-- `get_expr` of src/expression.c. The evaluator (src/tinyexpr_bitw.c) is a parameter: from a string
-- and the variables with their values to an `int` by its pattern, `none` if it does not compile.
use mathlib.Core.Option
use mikode.Prelude.{
  ℕ, zero, suc, ◌-◌, Bool, ◌||◌, List, [], ◌∷◌, map, Option, some, none, ◌==◌, if◌then◌else◌, u16,
}
use mikode.Prelude.Chars.{◌>>=◌}
use mikode.Assembler.Token.{Buffer}
use mikode.Assembler.Symbols.{Tables, equate_key}

abbrev pub max_lbl : ℕ
max_lbl = 100

abbrev pub Evaluator : Type 0
Evaluator = List ℕ → List (List ℕ × ℕ) → Option ℕ

abbrev pub ends_expr : ℕ → Bool
ends_expr c = c == b'\n' || c == b',' || c == b';' || c == 0

-- `exprstr`; `left` is `MAX_LBL + 1 - i`, and `none` is the return of -1 inside the loop.
unfoldable pub read_expr : ℕ → Buffer → ℕ → Option (List ℕ × ℕ)
read_expr zero b p = none
read_expr (suc left) b p =
    let rest = read_expr left b (suc p) in
    if ends_expr (b p) then some ([], p) else Option.map (λ r. (b p ∷ r.0, r.1)) rest

abbrev pub variables : Tables → List (List ℕ × ℕ)
variables t = map (λ e. (equate_key e, e.int_val)) t.equates

-- The value, an `int16_t` by its pattern, and the index, one before the character that ended it.
unfoldable pub get_expr : Evaluator → Tables → Buffer → ℕ → Option (ℕ × ℕ)
unfolding read_expr
get_expr te_interp t b p = do
  r ← read_expr (suc max_lbl) b p
  v ← te_interp r.0 (variables t)
  some (u16 v, r.1 - 1)
