-- ===== src/Assembler/Symbols.antt =====
-- The tables of src/directive.c, `equates` and `defs`. The arrays end at 255 and 32 entries and the
-- code does not look; the lists here do not end.
pub mod Laws
use mathlib.Core.Option
use mikode.Prelude.{
  ℕ, Bool, List, [], ◌∷◌, ◌++◌, Option, some, none, ◌==◌, if◌then◌else◌, replicate, length,
}
use mikode.Prelude.Chars.{c_str, char_at, strncpy, strncmp}

-- The two arrays of ten bytes are kept as they stand in memory; `int_val` is an `int` by its
-- pattern of 32 bits.
pub record Equate : Type 0 where
  pub key : List ℕ
  pub str_val : List ℕ
  pub int_val : ℕ

pub record Def : Type 0 where
  pub key : List ℕ
  pub str_val : List ℕ

pub record Tables : Type 0 where
  pub equates : List Equate
  pub defs : List Def

abbrev pub copy_10 : List ℕ → List ℕ
copy_10 s = strncpy 10 (c_str s)

-- `inval` is `none` for a null pointer: then only the first byte is written, over zeros.
unfoldable pub put_equate : List ℕ → Option (List ℕ) → ℕ → Tables → Tables
put_equate inkey none n t = record t {
  equates =
      t.equates ++ (record { key = copy_10 inkey; str_val = replicate 10 0; int_val = n } ∷ []);
}
put_equate inkey (some inval) n t = record t {
  equates =
      t.equates ++ (record { key = copy_10 inkey; str_val = copy_10 inval; int_val = n } ∷ []);
}

unfoldable pub put_def : List ℕ → List ℕ → Tables → Tables
put_def inkey inval t = record t {
  defs = t.defs ++ (record { key = copy_10 inkey; str_val = copy_10 inval } ∷ []);
}

-- A key as a string: one of ten bytes has no terminator and runs on into `str_val`.
abbrev pub equate_key : Equate → List ℕ
equate_key e = c_str (e.key ++ e.str_val)

abbrev pub def_key : Def → List ℕ
def_key d = c_str (d.key ++ d.str_val)

-- `strncmp (b, equates[i].key, strlen (b)) == 0`
abbrev pub equate_matches : List ℕ → Equate → Bool
equate_matches b e = strncmp (length b) b (equate_key e)

unfoldable pub find_equate : List ℕ → List Equate → Option Equate
find_equate b [] = none
find_equate b (e ∷ rest) = if equate_matches b e then some e else find_equate b rest

-- What `get_equate` writes into a zeroed `struct equate`.
pub data Value : Type 0 where
  number : ℕ → Value
  text : List ℕ → Value

abbrev pub value_of : Equate → Value
value_of e = if char_at e.str_val 0 == 0 then number e.int_val else text e.str_val

unfoldable pub get_equate : List ℕ → Tables → Option Value
unfolding find_equate
get_equate b t = Option.map value_of (find_equate b t.equates)

-- `strncmp (b, defs[i].key, strlen (defs[i].key)) == 0`
abbrev pub def_matches : List ℕ → Def → Bool
def_matches b d = strncmp (length (def_key d)) b (def_key d)

unfoldable pub find_def : List ℕ → List Def → Option Def
find_def b [] = none
find_def b (d ∷ rest) = if def_matches b d then some d else find_def b rest

-- `str_val` of the definition found.
unfoldable pub get_def : List ℕ → Tables → Option (List ℕ)
unfolding find_def
get_def b t = Option.map (λ d. d.str_val) (find_def b t.defs)
