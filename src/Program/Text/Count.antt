-- ===== src/Program/Text/Count.antt =====
-- How many lines `compile` of src/parse.c reads, and how many it has allocated.
use mikode.Prelude.{
  ℕ, zero, suc, ◌+◌, ◌-◌, ◌≡◌, refl, ap, ◌∙◌, arith, Bool, true, false, sym, ◌||◌, List, [], ◌∷◌,
  ◌++◌, if◌then◌else◌, ◌==◌, length, inl, inr, Bool-cases,
}
use mikode.Image.{File}
use mikode.Assembler.Token.{Buffer}
use mikode.Program.Text.{put_line, read_lines, get_lines, count_newlines}

-- Whether the line is open is looked at in the last byte.
abbrev open_at : File → ℕ → ℕ
open_at f a = if f.byte a == b'\n' then 0 else 1

-- 1 if what is left to read ends within a line, with the bytes that are read of it.
abbrev rest_of : ℕ → ℕ → List ℕ → File → ℕ
rest_of zero i [] f = 0
rest_of zero i (c ∷ s) f = 1
rest_of (suc left) i s f = open_at f (i + left)

last_byte :
    (i : ℕ) (f : File) (v : Bool)
    → (f.byte i == b'\n') ≡ v
    → open_at f (i + 0) ≡ (if v then 0 else 1)
last_byte i f v h =
    ap (open_at f) {x = i + 0} {y = i} (omega arith) ∙ ap (λ b. if b then 0 else 1) h

snoc_open : (i : ℕ) (s : List ℕ) (c : ℕ) (f : File) → rest_of zero i (s ++ (c ∷ [])) f ≡ 1
snoc_open i [] c f = refl
snoc_open i (d ∷ s) c f = refl

rest_next :
    (left i : ℕ) (s : List ℕ) (c : ℕ) (f : File)
    → (f.byte i == b'\n') ≡ false
    → rest_of left (i + 1) (s ++ (c ∷ [])) f ≡ rest_of (suc left) i s f
rest_next zero i s c f h = snoc_open (i + 1) s c f ∙ sym (last_byte i f false h)
rest_next (suc left) i s c f h = ap (open_at f) {x = i + 1 + left} {y = i + suc left} (omega arith)

rest_line :
    (left i : ℕ) (s : List ℕ) (f : File)
    → (f.byte i == b'\n') ≡ true
    → rest_of left (i + 1) [] f ≡ rest_of (suc left) i s f
rest_line zero i s f h = sym (last_byte i f true h)
rest_line (suc left) i s f h = ap (open_at f) {x = i + 1 + left} {y = i + suc left} (omega arith)

read_lines-length :
    (left i : ℕ) (s : List ℕ) (f : File) (b : Buffer)
    → length (read_lines left i s f b) ≡ count_newlines left i f + rest_of left i s f
unfolding read_lines count_newlines
read_lines-length zero i [] f b = refl
read_lines-length zero i (c ∷ s) f b = refl
read_lines-length (suc left) i s f b = elim (Bool-cases (f.byte i == b'\n')) [
  | inl ended ↦
      let later = read_lines-length left (i + 1) [] f (put_line (s ++ (f.byte i ∷ [])) b) in
      let same = rest_line left i s f ended in rw ended (omega (arith, later, same))
  | inr going ↦
      let later = read_lines-length left (i + 1) (s ++ (f.byte i ∷ [])) f b in
      let same = rest_next left i s (f.byte i) f going in
      rw going (later ∙ ap (◌+◌ (count_newlines left (i + 1) f)) same)
]

-- For each newline a line is allocated. So many lines are read, and one more if the file is not
-- empty and its last byte is no newline, which is then put behind the end of the array.
pub get_lines-count :
    (f : File) (b : Buffer)
    → length (get_lines f b)
      ≡ count_newlines f.length 0 f
        + (if f.length == 0 || f.byte (f.length - 1) == b'\n' then 0 else 1)
unfolding get_lines
get_lines-count f b =
    read_lines-length f.length 0 [] f b ∙ ap (◌+◌ (count_newlines f.length 0 f)) (last f.length)
  where
    last : (n : ℕ) → rest_of n 0 [] f ≡ (if n == 0 || f.byte (n - 1) == b'\n' then 0 else 1)
    last zero = refl
    last (suc n) =
        let some_byte : (suc n == 0) ≡ false = ground arith in
        rw some_byte (ap (open_at f) {x = 0 + n} {y = suc n - 1} (omega arith))
