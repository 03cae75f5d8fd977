-- ===== src/Assembler/Operand/Bytes.antt =====
-- `get_string`, and DB_T in `get_operand`, of src/operand.c: the bytes of a `.db` line go into the
-- next row of `dp`. A row has 255 bytes and a string is cut at index 512; the rows here do not end.
use mikode.Prelude.{
  ℕ, zero, suc, ◌+◌, ◌-◌, Bool, not, ◌&&◌, Option, some, none, ◌==◌, ltb, if◌then◌else◌, u8,
}
use mikode.Prelude.Chars.{c_str, char_at, ◌>>=◌, ◌>>◌, guard}
use mikode.Machine.{update}
use mikode.Assembler.Token.{Buffer, Scan, max_buf, max_data}
use mikode.Assembler.Symbols.{Tables}
use mikode.Assembler.Value.{get_val, val_8}
use mikode.Assembler.Line.{Line, Rows}
use mikode.Assembler.Operand.Scanner.{Filled, start_at, next}

-- A row that is being filled, the index `j` into it, and `*b`.
pub record Fill : Type 0 where
  pub row : ℕ → ℕ
  pub j : ℕ
  pub pos : ℕ

abbrev store : ℕ → Fill → Fill
store v f = record { row = update f.row f.j (u8 v); j = f.j + 1; pos = f.pos }

-- `left` is `MAX_BUF + 1 - index`.
unfoldable pub get_string : ℕ → Buffer → Fill → Option Fill
get_string zero b f = if b f.pos == b'"' then some f else none
get_string (suc left) b f =
    let c = b f.pos in
    let rest = get_string left b (record (store c f) { pos = f.pos + 1 }) in
    if c == b'"' then some f else if c == 0 then none else rest

-- `v > 255` on an `int16_t`, by its pattern
abbrev above_byte : ℕ → Bool
above_byte v = ltb 255 v && ltb v 32768

-- What one token stands for. `f.pos` is behind the token.
unfoldable pub db_item : Tables → Buffer → Scan → Fill → Option Fill
unfolding get_string
db_item t b s f =
    if char_at s.tok 0 == b'"'
    then get_string (max_buf + 1 - f.j) b f
    else if char_at s.tok 0 == b'\''
    then some (record (store (b f.pos) f) { pos = f.pos + 2 })
    else do
      v ← get_val t (c_str s.tok) val_8
      guard (not (above_byte v))
      some (record (store v f) { pos = f.pos - 1 })

-- The loop; `left` is `MAX_DATA - j`, and each round but the last raises `j` by one.
unfoldable pub db_items : ℕ → Tables → Buffer → Scan → Fill → Option Fill
unfolding db_item
db_items zero t b s f = some f
db_items (suc left) t b s f =
    let again = (do
      g ← db_item t b s f
      let s₁ = next b (start_at (g.pos + 1))
      if b g.pos == b',' then db_items left t b s₁ (record g { pos = s₁.pos }) else some g) in
    if char_at s.tok 0 == b'\n' then some f else again

-- `more_data` is taken to succeed.
unfoldable pub op_db : Tables → Buffer → Line → ℕ → Rows → Option (Filled × Rows)
unfolding db_items
op_db t b l p d = do
  let i = d.realloc_count - 1
  let s = next b (start_at p)
  f ← db_items max_data t b s (record { row = d.rows i; j = 0; pos = s.pos })
  let l₁ : Line = record l { dataidx = d.realloc_count; size = f.j; opcode = 0xffff }
  let d₁ : Rows = record {
    rows = λ k. if k == i then f.row else d.rows k;
    realloc_count = d.realloc_count + 1;
  }
  some (record { line = l₁; pos = f.pos }, d₁)
