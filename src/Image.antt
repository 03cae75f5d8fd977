-- ===== src/Image.antt =====
-- The object file that `write_asm` of src/write.c writes and `load` of src/load.c reads. A file is
-- its length and its bytes; `write` and `lseek` are taken to succeed, and a `uint16_t` is written
-- low byte first, as on the hosts that the program runs on.
pub mod Write
pub mod Load
use mikode.Prelude.{
  ℕ, zero, suc, ◌+◌, ◌-◌, Bool, true, false, ◌&&◌, not, List, [], ◌∷◌, if◌then◌else◌, max,
}
use mikode.Prelude.{u8, ◌>>◌, ◌==◌, ltb}
use mikode.Machine.{update}
use mikode.Assembler.Opcodes.{OpType}

pub record File : Type 0 where
  pub length : ℕ
  pub byte : ℕ → ℕ

-- The fields of `line` that are written.
pub record Line : Type 0 where
  pub address : ℕ
  pub size : ℕ
  pub dataidx : ℕ
  pub type : OpType
  pub opcode : ℕ
  pub opextra : ℕ

abbrev pub hoff : ℕ
hoff = 8

abbrev pub nocode : ℕ
nocode = 0xffff

-- One byte at an offset; a gap behind the old end reads as the bytes that are there, 0.
abbrev pub put_byte : ℕ → ℕ → File → File
put_byte o v f = record { length = max f.length (o + 1); byte = update f.byte o v }

abbrev pub put_word : ℕ → ℕ → File → File
put_word o v f = put_byte (o + 1) (v >> 8) (put_byte o (u8 v) f)

-- The loop over `k` from the given one on.
unfoldable pub put_bytes : ℕ → ℕ → (ℕ → ℕ) → ℕ → File → File
put_bytes zero o d k f = f
put_bytes (suc left) o d k f = put_bytes left (suc o) d (suc k) (put_byte o (d k) f)

-- `type == DIR_32 || type == LD_DIR || type == STR_DIR`
abbrev pub has_extra : OpType → Bool
has_extra OpType.dir_32 = true
has_extra OpType.ld_dir = true
has_extra OpType.str_dir = true
has_extra t = false

abbrev pub has_data : Line → Bool
has_data l = ltb 0 l.dataidx

abbrev pub has_code : Line → Bool
has_code l = not (l.opcode == nocode)

-- The body of the loop of `write_asm`: the data, the opcode and the second word of a line.
unfoldable pub write_line : (ℕ → ℕ → ℕ) → Line → File → File
unfolding put_bytes
write_line dp l f =
    let o = l.address + hoff in
    let f₁ = if has_data l then put_bytes l.size o (dp (l.dataidx - 1)) 0 f else f in
    let o₁ = if has_data l then o + l.size else o in
    let f₂ = if has_code l then put_word o₁ l.opcode f₁ else f₁ in
    let o₂ = if has_code l then o₁ + 2 else o₁ in
    if has_extra l.type then put_word o₂ l.opextra f₂ else f₂

unfoldable pub write_lines : (ℕ → ℕ → ℕ) → List Line → File → File
unfolding write_line
write_lines dp [] f = f
write_lines dp (l ∷ rest) f = write_lines dp rest (write_line dp l f)

-- `{ 'b', 'a', 's', 'm', 0, 0, 0, 0 }`
abbrev pub header : ℕ → ℕ
header n =
    if n == 0 then 98 else if n == 1 then 97 else if n == 2 then 115 else if n == 3 then 109 else 0

abbrev pub header_file : File
header_file = record { length = hoff; byte = header }

unfoldable pub write_asm : (ℕ → ℕ → ℕ) → List Line → File
unfolding write_lines
write_asm dp ls = write_lines dp ls header_file

-- `strncmp (header, "basm", 8) == 0`
abbrev pub is_basm : File → Bool
is_basm f = f.byte 0 == 98 && f.byte 1 == 97 && f.byte 2 == 115 && f.byte 3 == 109 && f.byte 4 == 0

-- How `load` ends: `exit` on a short file, or its 0 with the memory that it leaves.
pub data Loaded : Type 0 where
  exits : Loaded
  returns_0 : (ℕ → ℕ) → Loaded

-- The reading loop, with `i` and the bytes that are left; the test says whether it ran over.
unfoldable pub read_bytes : ℕ → ℕ → File → (ℕ → ℕ) → Bool × (ℕ → ℕ)
read_bytes zero i f prog = (false, prog)
read_bytes (suc left) i f prog =
    let prog₁ = update prog i (f.byte (i + hoff)) in
    let rest = read_bytes left (suc i) f prog₁ in if ltb 0xffff (i + 1) then (true, prog₁) else rest

-- `for (i = 0xc000; i < 0xd800; i++) (*prog)[i] = 0;`
abbrev pub clear_screen : (ℕ → ℕ) → ℕ → ℕ
clear_screen prog a = if ltb a 0xc000 then prog a else if ltb a 0xd800 then 0 else prog a

abbrev pub after_read : Bool × (ℕ → ℕ) → Loaded
after_read (true, prog) = returns_0 prog
after_read (false, prog) = returns_0 (clear_screen prog)

-- `fresh` is what the allocated memory holds.
unfoldable pub load : (ℕ → ℕ) → File → Loaded
unfolding read_bytes
load fresh f =
    if ltb f.length 8
    then exits
    else if is_basm f
    then after_read (read_bytes (f.length - hoff) 0 f fresh)
    else returns_0 fresh
