-- ===== src/Image/Write.antt =====
-- Where `write_asm` of src/write.c puts its bytes.
use mikode.Prelude.{
  ℕ, zero, suc, ◌+◌, ◌-◌, ◌%◌, ◌/◌, ◌<◌, ◌≤◌, ◌≡◌, refl, arith, ◌∙◌, ◌⊎◌, inl, inr, Bool, true,
  false, List, [], ◌∷◌, if◌then◌else◌,
}
use mikode.Prelude.{◌++◌}
use mikode.Image.{
  File, Line, hoff, put_byte, put_word, put_bytes, has_data, has_code, has_extra, write_line,
  write_lines,
}

-- The bytes that a line takes.
abbrev pub width : Line → ℕ
width l =
    (if has_data l then l.size else 0)
    + ((if has_code l then 2 else 0) + (if has_extra l.type then 2 else 0))

-- `Outside o a n`: the offset `o` is outside the `n` bytes from `a` on.
abbrev pub Outside : ℕ → ℕ → ℕ → Type 0
Outside o a n = (o < a) ⊎ (a + n ≤ o)

put_bytes-off :
    (n a : ℕ) (d : ℕ → ℕ) (k : ℕ) (f : File) (o : ℕ)
    → Outside o a n
    → (put_bytes n a d k f).byte o ≡ f.byte o
unfolding put_bytes
put_bytes-off zero a d k f o h = refl
put_bytes-off (suc n) a d k f o h =
    put_bytes-off n (suc a) d (suc k) (put_byte a (d k) f) o
      (elim h [ inl p ↦ inl (omega arith) | inr p ↦ inr (omega arith) ])
    ∙ ground arith

put_word-off : (a v : ℕ) (f : File) (o : ℕ) → Outside o a 2 → (put_word a v f).byte o ≡ f.byte o
put_word-off a v f o h = ground arith

if_off :
    (b : Bool) (f g : File) (o a n : ℕ)
    → (Outside o a n → g.byte o ≡ f.byte o)
    → Outside o a (if b then n else 0)
    → (if b then g else f).byte o ≡ f.byte o
if_off true f g o a n h off = h off
if_off false f g o a n h off = refl

-- Bytes before a part of a line and behind it.
first_part :
    (b : Bool) (o a n rest : ℕ)
    → Outside o a ((if b then n else 0) + rest)
    → Outside o a (if b then n else 0)
first_part b o a n rest h = elim h [ inl p ↦ inl p | inr p ↦ inr (omega arith) ]

rest_part :
    (b : Bool) (o a n rest : ℕ)
    → Outside o a ((if b then n else 0) + rest)
    → Outside o (if b then a + n else a) rest
rest_part true o a n rest h = elim h [ inl p ↦ inl (omega arith) | inr p ↦ inr (omega arith) ]
rest_part false o a n rest h = elim h [ inl p ↦ inl (omega arith) | inr p ↦ inr (omega arith) ]

last_part :
    (b : Bool) (o a n : ℕ)
    → Outside o a (if b then n else 0)
    → Outside o a ((if b then n else 0) + 0)
last_part b o a n h = elim h [ inl p ↦ inl p | inr p ↦ inr (omega arith) ]

-- A line changes only its own bytes.
pub write_line-off :
    (dp : ℕ → ℕ → ℕ) (l : Line) (f : File) (o : ℕ)
    → Outside o (l.address + hoff) (width l)
    → (write_line dp l f).byte o ≡ f.byte o
unfolding write_line
write_line-off dp l f o h =
    let a = l.address + hoff in
    let f₁ = if has_data l then put_bytes l.size a (dp (l.dataidx - 1)) 0 f else f in
    let a₁ = if has_data l then a + l.size else a in
    let f₂ = if has_code l then put_word a₁ l.opcode f₁ else f₁ in
    let a₂ = if has_code l then a₁ + 2 else a₁ in
    let tail = (if has_code l then 2 else 0) + (if has_extra l.type then 2 else 0) in
    let behind = rest_part (has_data l) o a l.size tail h in
    let last = rest_part (has_code l) o a₁ 2 (if has_extra l.type then 2 else 0) behind in
    if_off (has_extra l.type) f₂ (put_word a₂ l.opextra f₂) o a₂ 2 (put_word-off a₂ l.opextra f₂ o)
      last
    ∙ if_off (has_code l) f₁ (put_word a₁ l.opcode f₁) o a₁ 2 (put_word-off a₁ l.opcode f₁ o)
        (first_part (has_code l) o a₁ 2 (if has_extra l.type then 2 else 0) behind)
    ∙ if_off (has_data l) f (put_bytes l.size a (dp (l.dataidx - 1)) 0 f) o a l.size
        (put_bytes-off l.size a (dp (l.dataidx - 1)) 0 f o)
        (first_part (has_data l) o a l.size tail h)

-- The lines that stand apart from the `n` bytes at `a` of the memory.
pub data Apart (a n : ℕ) : List Line → Type 0 where
  none_left : Apart a n []
  beside :
      {l : Line} {rest : List Line}
      → (l.address + width l ≤ a) ⊎ (a + n ≤ l.address)
      → Apart a n rest
      → Apart a n (l ∷ rest)

-- Lines that stand apart from a byte leave it.
pub write_lines-off :
    (dp : ℕ → ℕ → ℕ) (a n o : ℕ) {ls : List Line} (f : File)
    → Apart a n ls
    → a + hoff ≤ o
    → o < a + hoff + n
    → (write_lines dp ls f).byte o ≡ f.byte o
unfolding write_lines
write_lines-off dp a n o f none_left h₁ h₂ = refl
write_lines-off dp a n o f (beside {l} apart rest) h₁ h₂ =
    write_lines-off dp a n o (write_line dp l f) rest h₁ h₂
    ∙ write_line-off dp l f o (elim apart [ inl p ↦ inr (omega arith) | inr p ↦ inl (omega arith) ])

-- A line without data puts its opcode at its address, low byte first.
pub write_line-code :
    (dp : ℕ → ℕ → ℕ) (l : Line) (f : File)
    → l.dataidx ≡ 0
    → l.opcode < 0xffff
    → ((write_line dp l f).byte (l.address + 8) ≡ l.opcode % 256)
      × ((write_line dp l f).byte (l.address + 9) ≡ l.opcode / 256)
unfolding write_line
write_line-code dp l f no_data code = (ground arith, ground arith)

-- The second word of such a line, with how far the file reaches.
pub write_line-extra :
    (dp : ℕ → ℕ → ℕ) (l : Line) (f : File)
    → l.dataidx ≡ 0
    → l.opcode < 0xffff
    → has_extra l.type ≡ true
    → (l.address + 2 + 10 ≤ (write_line dp l f).length)
      × ((write_line dp l f).byte (l.address + 2 + 8) ≡ l.opextra % 256)
      × ((write_line dp l f).byte (l.address + 2 + 9) ≡ l.opextra / 256)
unfolding write_line
write_line-extra dp l f no_data code extra = (ground arith, ground arith, ground arith)

-- No line is written without the file reaching to the end of its opcode.
put_bytes-length :
    (n a : ℕ) (d : ℕ → ℕ) (k : ℕ) (f : File) → f.length ≤ (put_bytes n a d k f).length
unfolding put_bytes
put_bytes-length zero a d k f = omega arith
put_bytes-length (suc n) a d k f =
    let later = put_bytes-length n (suc a) d (suc k) (put_byte a (d k) f) in ground (arith, later)

le_trans : {a b c : ℕ} → a ≤ b → b ≤ c → a ≤ c
le_trans h k = omega arith

if_length : (b : Bool) (f g : File) → f.length ≤ g.length → f.length ≤ (if b then g else f).length
if_length true f g h = h
if_length false f g h = omega arith

put_word-length :
    (a v : ℕ) (f : File) → (f.length ≤ (put_word a v f).length) × (a + 2 ≤ (put_word a v f).length)
put_word-length a v f = (ground arith, ground arith)

write_line-length : (dp : ℕ → ℕ → ℕ) (l : Line) (f : File) → f.length ≤ (write_line dp l f).length
unfolding write_line
write_line-length dp l f =
    let a = l.address + hoff in
    let f₁ = if has_data l then put_bytes l.size a (dp (l.dataidx - 1)) 0 f else f in
    let a₁ = if has_data l then a + l.size else a in
    let f₂ = if has_code l then put_word a₁ l.opcode f₁ else f₁ in
    let a₂ = if has_code l then a₁ + 2 else a₁ in
    let first = if_length (has_data l) f _ (put_bytes-length l.size a (dp (l.dataidx - 1)) 0 f) in
    let code = if_length (has_code l) f₁ _ ((put_word-length a₁ l.opcode f₁).0) in
    let extra = if_length (has_extra l.type) f₂ _ ((put_word-length a₂ l.opextra f₂).0) in
    le_trans first (le_trans code extra)

pub write_lines-length :
    (dp : ℕ → ℕ → ℕ) (ls : List Line) (f : File) → f.length ≤ (write_lines dp ls f).length
unfolding write_lines
write_lines-length dp [] f = omega arith
write_lines-length dp (l ∷ rest) f =
    le_trans (write_line-length dp l f) (write_lines-length dp rest (write_line dp l f))

-- The file reaches behind the opcode of a line without data.
pub write_line-reach :
    (dp : ℕ → ℕ → ℕ) (l : Line) (f : File)
    → l.dataidx ≡ 0
    → l.opcode < 0xffff
    → l.address + 10 ≤ (write_line dp l f).length
unfolding write_line
write_line-reach dp l f no_data code = ground arith

pub write_lines-append :
    (dp : ℕ → ℕ → ℕ) (before after : List Line) (f : File)
    → write_lines dp (before ++ after) f ≡ write_lines dp after (write_lines dp before f)
unfolding write_lines
write_lines-append dp [] after f = refl
write_lines-append dp (l ∷ rest) after f = write_lines-append dp rest after (write_line dp l f)
