-- ===== src/Program/Text.antt =====
-- The lines of a file as `getline` gives them in `compile` of src/parse.c.
pub mod Count
use mikode.Prelude.{ℕ, zero, suc, ◌+◌, Bool, List, [], ◌∷◌, ◌++◌, if◌then◌else◌, ◌==◌, ltb, length}
use mikode.Prelude.Chars.{char_at}
use mikode.Image.{File}
use mikode.Assembler.Token.{Buffer, max_data}

-- `line_buf` with a line and its terminator put over what it holds.
abbrev pub put_line : List ℕ → Buffer → Buffer
put_line s b i = if ltb i (length s) then char_at s i else if i == length s then 0 else b i

-- Further lines, with the bytes read since the last newline, and so many bytes left from `i` on.
unfoldable pub read_lines : ℕ → ℕ → List ℕ → File → Buffer → List Buffer
read_lines zero i [] f b = []
read_lines zero i (c ∷ s) f b = put_line (c ∷ s) b ∷ []
read_lines (suc left) i s f b =
    let s' = s ++ (f.byte i ∷ []) in
    let b' = put_line s' b in
    let ended = read_lines left (i + 1) [] f b' in
    let going = read_lines left (i + 1) s' f b in if f.byte i == b'\n' then b' ∷ ended else going

unfoldable pub get_lines : File → Buffer → List Buffer
unfolding read_lines
get_lines f b = read_lines f.length 0 [] f b

-- The first loop of `compile`, which counts the newlines; so many lines are allocated.
unfoldable pub count_newlines : ℕ → ℕ → File → ℕ
count_newlines zero i f = 0
count_newlines (suc left) i f =
    let rest = count_newlines left (i + 1) f in if f.byte i == b'\n' then suc rest else rest

-- `strndup (line_buf, n)`
unfoldable pub strndup : ℕ → Buffer → List ℕ
strndup zero b = []
strndup (suc n) b = let rest = strndup n (λ i. b (i + 1)) in if b 0 == 0 then [] else b 0 ∷ rest
