-- ===== src/Assembler/Value/Decimal.antt =====
-- What `get_val` of src/misc.c makes of a number in decimal digits.
use mikode.Prelude.{
  ℕ, zero, suc, ◌+◌, ◌*◌, ◌/◌, ◌%◌, ◌^◌, ◌<◌, ◌≡◌, refl, ap, ◌∙◌, arith, Bool, true, false, ◌&&◌,
  List, [], ◌∷◌, ◌++◌, some, if◌then◌else◌, ◌==◌, ltb, leb, all, u16, inl, inr, Bool-cases,
}
use mathlib.Core.Path.{subst}
use mikode.Prelude.Bits.{low_byte, bit_and_low}
use mikode.Prelude.Chars.{isdigit, isspace, isalpha, char_at, ◌>>=◌}
use mikode.Assembler.Symbols.{Tables}
use mikode.Assembler.Value.{
  digit_value, read_digits, strtol, to_int, base_of, masked, get_val, ValType, val_8, val_16,
}

-- The decimal digits of a number with at most so many of them.
unfoldable pub decimal : ℕ → ℕ → List ℕ
decimal zero n = []
decimal (suc left) n =
    let high = decimal left (n / 10) in
    if ltb n 10 then (b'0' + n) ∷ [] else high ++ ((b'0' + n % 10) ∷ [])

-- The first number that takes more digits
abbrev limit : ℕ → ℕ
limit zero = 1
limit (suc left) = limit left * 10

digit_lem : (d : ℕ) → d < 10 → (digit_value (b'0' + d) ≡ d) × (isdigit (b'0' + d) ≡ true)
digit_lem d h = (ground arith, ground arith)

digit_low : (c : ℕ) → isdigit c ≡ true → ltb (digit_value c) 10 ≡ true
digit_low c h = ground arith

both : (x y : Bool) → (x && y) ≡ true → (x ≡ true) × (y ≡ true)
both true y h = (refl, h)
both false y h = absurd (cc)

all-snoc :
    (s : List ℕ) (c : ℕ)
    → all isdigit s ≡ true
    → isdigit c ≡ true
    → all isdigit (s ++ (c ∷ [])) ≡ true
all-snoc [] c h k = rw k refl
all-snoc (x ∷ s) c h k =
    let now = both (isdigit x) (all isdigit s) h in rw now.0 (all-snoc s c now.1 k)

-- One more digit at the end.
read_digits-snoc :
    (s : List ℕ) (acc n d : ℕ)
    → all isdigit s ≡ true
    → d < 10
    → read_digits 10 acc n (s ++ ((b'0' + d) ∷ []))
      ≡ ((read_digits 10 acc n s).0 * 10 + d, suc ((read_digits 10 acc n s).1))
unfolding read_digits
read_digits-snoc [] acc n d h k =
    let value = (digit_lem d k).0 in
    let low : ltb d 10 ≡ true = ground arith in rw (value, low) refl
read_digits-snoc (c ∷ s) acc n d h k =
    let now = both (isdigit c) (all isdigit s) h in
    rw (digit_low c now.0) (read_digits-snoc s (acc * 10 + digit_value c) (suc n) d now.1 k)

-- What a text of digits stands for.
record Reads (s : List ℕ) (n : ℕ) : Type 0 where
  digits : all isdigit s ≡ true
  value : (read_digits 10 0 0 s).0 ≡ n
  some_read : ((read_digits 10 0 0 s).1 == 0) ≡ false

one-Reads : (d : ℕ) → d < 10 → Reads ((b'0' + d) ∷ []) d
unfolding read_digits
one-Reads d h =
    let fact = digit_lem d h in
    let low : ltb d 10 ≡ true = ground arith in
    record {
      digits = rw (fact.1) refl;
      value = rw (fact.0, low) (omega arith);
      some_read = rw (fact.0, low) refl;
    }

more-Reads :
    (s : List ℕ) (m d : ℕ) → Reads s m → d < 10 → Reads (s ++ ((b'0' + d) ∷ [])) (m * 10 + d)
more-Reads s m d h k =
    let next = read_digits-snoc s 0 0 d h.digits k in
    let value = h.value in
    record {
      digits = all-snoc s (b'0' + d) h.digits ((digit_lem d k).1);
      value = ap (λ (r : ℕ × ℕ). r.0) next ∙ ap (λ v. v * 10 + d) value;
      some_read = ap (λ (r : ℕ × ℕ). r.1 == 0) next ∙ ground arith;
    }

join-Reads : (s : List ℕ) (n : ℕ) → Reads s (n / 10) → Reads (s ++ ((b'0' + n % 10) ∷ [])) n
join-Reads s n h =
    subst (Reads (s ++ ((b'0' + n % 10) ∷ []))) (omega arith)
      (more-Reads s (n / 10) (n % 10) h (omega arith))

decimal-Reads : (left n : ℕ) → n < limit (suc left) → Reads (decimal (suc left) n) n
unfolding decimal
decimal-Reads zero n h = let e : ltb n 10 ≡ true = ground arith in rw e (one-Reads n (omega arith))
decimal-Reads (suc left) n h = elim (Bool-cases (ltb n 10)) [
  | inl e ↦ rw e (one-Reads n (ground arith))
  | inr e ↦
      rw e (join-Reads (decimal (suc left) (n / 10)) n (decimal-Reads left (n / 10) (omega arith)))
]

-- A digit is no space, no sign and no letter.
digit_alone :
    (c : ℕ)
    → isdigit c ≡ true
    → (isspace c ≡ false) × ((c == b'-') ≡ false) × ((c == b'+') ≡ false) × (isalpha c ≡ false)
digit_alone c h = (ground arith, ground arith, ground arith, ground arith)

strtol-Reads : (s : List ℕ) (n : ℕ) → n < 2 ^ 32 → Reads s n → strtol 10 s ≡ some (n, false)
unfolding strtol to_int
strtol-Reads [] n fits h = let none_read = h.some_read in absurd (cc)
strtol-Reads (c ∷ s) n fits h =
    let alone = digit_alone c ((both (isdigit c) (all isdigit s) h.digits).0) in
    let low : leb (2 ^ 63) n ≡ false = ground arith in
    rw (alone.0, alone.1, alone.2, h.some_read, h.value, low)
      (ap (λ m. some (m, false)) (omega arith))

-- It has no mark of another base.
never : (x y : Bool) → y ≡ false → (x && y) ≡ false
never true y h = h
never false y h = refl

second_char :
    (s : List ℕ)
    → all isdigit s ≡ true
    → ((char_at s 0 == b'x') ≡ false)
      × ((char_at s 0 == b'b') ≡ false)
      × ((char_at s 0 == b'o') ≡ false)
second_char [] h = (refl, refl, refl)
second_char (c ∷ s) h =
    let digit = (both (isdigit c) (all isdigit s) h).0 in (ground arith, ground arith, ground arith)

digit_mark :
    (c : ℕ)
    → isdigit c ≡ true
    → ((c == b'#') ≡ false) × ((c == b'%') ≡ false) × ((c == b'$') ≡ false)
digit_mark c h = (ground arith, ground arith, ground arith)

base_of-digits : (c : ℕ) (s : List ℕ) → all isdigit (c ∷ s) ≡ true → base_of (c ∷ s) ≡ (10, 0)
base_of-digits c s h =
    let now = both (isdigit c) (all isdigit s) h in
    let mark = digit_mark c now.0 in
    let second = second_char s now.1 in
    rw
      (
        mark.0,
        mark.1,
        mark.2,
        never (c == b'0') _ second.0,
        never (c == b'0') _ second.1,
        never (c == b'0') _ second.2,
      )
      refl

-- `get_val` of a text of digits.
get_val-Reads :
    (t : Tables) (s : List ℕ) (n : ℕ) (type : ValType)
    → n < 2 ^ 32
    → Reads s n
    → get_val t s type ≡ some (u16 (masked type n))
unfolding get_val ◌>>=◌
get_val-Reads t [] n type fits h = let none_read = h.some_read in absurd (cc)
get_val-Reads t (c ∷ s) n type fits h =
    let alone = digit_alone c ((both (isdigit c) (all isdigit s) h.digits).0) in
    rw (alone.3, base_of-digits c s h.digits, strtol-Reads (c ∷ s) n fits h) refl

-- A number below 2 to the 16 that is written in decimal is read as itself, and as its low byte
-- where a byte is wanted.
pub get_val-decimal :
    (t : Tables) (n : ℕ)
    → n < 65536
    → (get_val t (decimal 5 n) val_16 ≡ some n) × (get_val t (decimal 5 n) val_8 ≡ some (n % 256))
get_val-decimal t n h =
    let reads = decimal-Reads 4 n (omega arith) in
    (
      get_val-Reads t (decimal 5 n) n val_16 (omega arith) reads
          ∙ ap some (ap u16 (bit_and_low 16 n) ∙ omega arith),
      get_val-Reads t (decimal 5 n) n val_8 (omega arith) reads
          ∙ ap some (ap u16 (low_byte n) ∙ omega arith),
    )
