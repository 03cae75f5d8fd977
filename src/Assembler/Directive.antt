-- ===== src/Assembler/Directive.antt =====
-- `get_directive` and `get_org` of src/directive.c.
use mathlib.Core.Option
use mikode.Prelude.{ℕ, ◌+◌, Bool, ◌||◌, List, [], Option, some, ◌==◌, if◌then◌else◌}
use mikode.Prelude.Chars.{c_str, char_at, isdigit, ◌>>=◌, ◌>>◌, guard}
use mikode.Assembler.Token.{Buffer, Scan, get_token}
use mikode.Assembler.Symbols.{Tables, copy_10, put_equate, put_def}
use mikode.Assembler.Value.{get_val, val_8, val_16}

pub data DirType : Type 0 where
  equ_t def_t : DirType

-- `isdigit (tok[0]) || tok[0] == '$' || tok[0] == '%'`
abbrev pub is_number : List ℕ → Bool
is_number tok = isdigit (char_at tok 0) || char_at tok 0 == b'$' || char_at tok 0 == b'%'

-- A token behind the last one, in a cleared `tok`; `none` is a return of -1.
abbrev pub next_token : Buffer → ℕ → Option Scan
next_token b p = let s = get_token [] b p in guard s.good >> some s

-- `strv` and `intv`. `junk` is what the array `strv` holds before anything is written to it.
unfoldable pub directive_value : Tables → List ℕ → List ℕ → Option (List ℕ × ℕ)
directive_value t junk tok =
    if is_number tok
    then Option.map (λ v. (junk, v)) (get_val t (c_str tok) val_8)
    else some (copy_10 tok, 0)

abbrev put_directive : DirType → List ℕ → List ℕ × ℕ → Tables → Tables
put_directive equ_t key (strv, intv) t = put_equate key (some strv) intv t
put_directive def_t key (strv, intv) t = put_def key strv t

-- `p` is the start of the line.
unfoldable pub get_directive : List ℕ → Tables → Buffer → ℕ → DirType → Option Tables
unfolding directive_value
get_directive junk t b p type = do
  k ← next_token b (p + 4)
  e ← next_token b k.pos
  guard (char_at e.tok 0 == b'=')
  v ← next_token b e.pos
  r ← directive_value t junk v.tok
  some (put_directive type (copy_10 k.tok) r t)

-- The address that `.org` gives; `none` is -1.
unfoldable pub get_org : Tables → Buffer → ℕ → Option ℕ
get_org t b p = do s ← next_token b (p + 4); guard (is_number s.tok); get_val t (c_str s.tok) val_16
