-- ===== src/Assembler/Value.antt =====
-- `get_val` of src/misc.c, with `strtol` as the C library defines it for a `long` of 64 bits.
pub mod Decimal
pub mod Fits
use mikode.Prelude.{
  ℕ, suc, ◌+◌, ◌-◌, ◌*◌, ◌%◌, ◌^◌, Bool, true, false, not, ◌&&◌, ◌||◌, List, [], ◌∷◌, Option, some,
  none,
}
use mikode.Prelude.{◌==◌, ltb, leb, if◌then◌else◌, bit_and, u16}
use mikode.Prelude.Chars.{isspace, isdigit, isalpha, char_at, ◌>>=◌, ◌>>◌, guard}
use mikode.Assembler.Symbols.{Tables, Value, number, text, get_equate}

-- The value of a digit, 36 for a character that is none in any base.
abbrev pub digit_value : ℕ → ℕ
digit_value c =
    if isdigit c
    then c - b'0'
    else if leb b'A' c && leb c b'Z'
    then c - 55
    else if leb b'a' c && leb c b'z'
    then c - 87
    else 36

-- The digits in front, as a number, and how many there are.
unfoldable pub read_digits : ℕ → ℕ → ℕ → List ℕ → ℕ × ℕ
read_digits base acc n [] = (acc, n)
read_digits base acc n (c ∷ s) =
    let rest = read_digits base (acc * base + digit_value c) (suc n) s in
    if ltb (digit_value c) base then rest else (acc, n)

abbrev skip_white : List ℕ → List ℕ
skip_white [] = []
skip_white (c ∷ s) = if isspace c then skip_white s else c ∷ s

abbrev skip_sign : List ℕ → Bool × List ℕ
skip_sign [] = (false, [])
skip_sign (c ∷ s) =
    if c == b'-' then (true, s) else if c == b'+' then (false, s) else (false, c ∷ s)

abbrev drop_two : List ℕ → List ℕ
drop_two [] = []
drop_two (c ∷ []) = []
drop_two (c ∷ d ∷ s) = s

-- A prefix `0x` counts only in base 16 and before a digit.
abbrev skip_prefix : ℕ → List ℕ → List ℕ
skip_prefix base s =
    let prefixed =
      base == 16
      && char_at s 0 == b'0'
      && (char_at s 1 == b'x' || char_at s 1 == b'X')
      && ltb (digit_value (char_at s 2)) 16 in
    if prefixed then drop_two s else s

-- A `long` converted to `int`, by its pattern of 32 bits, and whether `errno` is ERANGE.
unfoldable pub to_int : Bool → ℕ → ℕ × Bool
to_int true m = if ltb (2 ^ 63) m then (0, true) else ((2 ^ 32 - m % 2 ^ 32) % 2 ^ 32, false)
to_int false m = if leb (2 ^ 63) m then (2 ^ 32 - 1, true) else (m % 2 ^ 32, false)

-- `none` if nothing was converted, so that `endptr` is the start.
unfoldable pub strtol : ℕ → List ℕ → Option (ℕ × Bool)
unfolding read_digits to_int
strtol base s =
    let (neg, t) = skip_sign (skip_white s) in
    let (m, n) = read_digits base 0 0 (skip_prefix base t) in
    if n == 0 then none else some (to_int neg m)

-- The comparisons with LONG_MAX and LONG_MIN are never met by an `int`.
abbrev pub check_val_err : ℕ × Bool → Bool
check_val_err (val, erange) = erange && val == 0

pub data ValType : Type 0 where
  val_8 val_16 : ValType

abbrev pub masked : ValType → ℕ → ℕ
masked val_8 ival = bit_and ival 0x00ff
masked val_16 ival = bit_and ival 0x0000ffff

abbrev pub from_equate : Value → Option ℕ
from_equate (number n) = some (u16 n)
from_equate (text s) = none

-- The base, and how many characters its mark takes.
abbrev pub base_of : List ℕ → ℕ × ℕ
base_of s =
    let c = char_at s 0 in
    let d = char_at s 1 in
    if c == b'#'
    then (10, 1)
    else if c == b'%'
    then (2, 1)
    else if c == b'$'
    then (16, 1)
    else if c == b'0' && d == b'x'
    then (16, 2)
    else if c == b'0' && d == b'b'
    then (2, 2)
    else if c == b'0' && d == b'o'
    then (8, 2)
    else (10, 0)

abbrev drop_one : List ℕ → List ℕ
drop_one [] = []
drop_one (c ∷ s) = s

abbrev behind : ℕ → List ℕ → List ℕ
behind i s = if i == 0 then s else if i == 1 then drop_one s else drop_two s

-- `get_val`: the `int16_t` by its pattern; `none` is -1. A name is first tried as a function, which
-- always fails, and then as an equate.
unfoldable pub get_val : Tables → List ℕ → ValType → Option ℕ
unfolding get_equate strtol
get_val t b type = if isalpha (char_at b 0) then (do v ← get_equate b t; from_equate v) else do
  let (base, i) = base_of b
  r ← strtol base (behind i b)
  guard (not (check_val_err r))
  some (u16 (masked type r.0))
