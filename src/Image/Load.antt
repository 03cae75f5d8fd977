-- ===== src/Image/Load.antt =====
-- What `load` of src/load.c makes of a file, and of one that src/write.c has written.
use mikode.Prelude.{
  ℕ, zero, suc, ◌+◌, ◌-◌, ◌*◌, ◌%◌, ◌/◌, ◌<◌, ◌≤◌, ◌≡◌, refl, arith, ◌∙◌, ap, sym, inl, Bool, true,
  false, List, [], ◌∷◌, ◌++◌,
}
use mikode.Prelude.{if◌then◌else◌, ltb}
use mikode.Machine.{Machine, update}
use mathlib.Core.Path.{subst}
use mikode.Machine.Memory.{word_at}
use mikode.Prelude.Bits.{join_bytes}
use mikode.Image.{
  File, Line, hoff, header_file, Loaded, returns_0, read_bytes, load, clear_screen, is_basm,
  after_read,
}
use mikode.Image.{write_line, write_lines, write_asm, has_extra}
use mikode.Image.Write.{
  Apart, write_lines-off, write_line-code, write_line-extra, write_lines-length, write_line-reach,
  write_lines-append, write_line-off,
}

-- What the reading loop leaves in memory, if the file fits.
abbrev pub read_at : ℕ → ℕ → File → (ℕ → ℕ) → ℕ → ℕ
read_at left i f prog a =
    if ltb a i then prog a else if ltb a (i + left) then f.byte (a + hoff) else prog a

read_bytes_lem :
    (left i : ℕ) (f : File) (prog : ℕ → ℕ)
    → i + left ≤ 0xffff
    → (read_bytes left i f prog).0 ≡ false
      × ((a : ℕ) → (read_bytes left i f prog).1 a ≡ read_at left i f prog a)
unfolding read_bytes
read_bytes_lem zero i f prog h = (refl, λ a. ground arith)
read_bytes_lem (suc left) i f prog h =
    let rest = read_bytes_lem left (suc i) f (update prog i (f.byte (i + hoff))) (omega arith) in
    let room : ltb 0xffff (i + 1) ≡ false = ground arith in
    (rw room (rest.0), λ a. rw room (rest.1 a ∙ ground arith))

header_kept :
    (dp : ℕ → ℕ → ℕ) (ls : List Line) (f : File) (o : ℕ)
    → o < 8
    → (write_lines dp ls f).byte o ≡ f.byte o
unfolding write_lines
header_kept dp [] f o h = refl
header_kept dp (l ∷ rest) f o h =
    header_kept dp rest (write_line dp l f) o h ∙ write_line-off dp l f o (inl (omega arith))

write_asm-is_basm : (dp : ℕ → ℕ → ℕ) (ls : List Line) → is_basm (write_asm dp ls) ≡ true
unfolding write_asm
write_asm-is_basm dp ls =
    let at_0 : (write_lines dp ls header_file).byte 0 ≡ 98 =
      header_kept dp ls header_file 0 (omega arith) in
    let at_1 : (write_lines dp ls header_file).byte 1 ≡ 97 =
      header_kept dp ls header_file 1 (omega arith) in
    let at_2 : (write_lines dp ls header_file).byte 2 ≡ 115 =
      header_kept dp ls header_file 2 (omega arith) in
    let at_3 : (write_lines dp ls header_file).byte 3 ≡ 109 =
      header_kept dp ls header_file 3 (omega arith) in
    let at_4 : (write_lines dp ls header_file).byte 4 ≡ 0 =
      header_kept dp ls header_file 4 (omega arith) in
    rw (at_0, at_1, at_2, at_3, at_4) refl

-- `load` ended with a memory whose word at `a` is `op`.
pub record Fetches (r : Loaded) (a op : ℕ) : Type 0 where
  pub memory : ℕ → ℕ
  pub ended : r ≡ returns_0 memory
  pub fetched : (m : Machine) → m.prog ≡ memory → word_at m a ≡ op

after_read_lem : (r : Bool × (ℕ → ℕ)) → r.0 ≡ false → after_read r ≡ returns_0 (clear_screen r.1)
after_read_lem (true, prog) h = cc
after_read_lem (false, prog) h = refl

load_lem :
    (fresh : ℕ → ℕ) (f : File)
    → is_basm f ≡ true
    → 8 ≤ f.length
    → f.length ≤ 0xffff + 8
    → load fresh f ≡ returns_0 (clear_screen (read_bytes (f.length - 8) 0 f fresh).1)
unfolding load
load_lem fresh f good low high =
    let long : ltb f.length 8 ≡ false = ground arith in
    rw (long, good) (after_read_lem _ ((read_bytes_lem (f.length - 8) 0 f fresh (omega arith)).0))

word_of :
    (m : Machine) (a lo hi : ℕ)
    → m.prog a ≡ lo
    → m.prog (a + 1) ≡ hi
    → lo < 256
    → hi < 256
    → word_at m a ≡ hi * 256 + lo
unfolding word_at
word_of m a lo hi at_lo at_hi fits_lo fits_hi =
    rw (at_lo, at_hi) (omega (arith, join_bytes lo hi fits_lo))

-- A word that a line has put into the file at the offset of the address `a` is fetched there, below
-- the addresses of the screen, if the later lines stand apart from it and the whole file fits.
load-word :
    (dp : ℕ → ℕ → ℕ) (fresh : ℕ → ℕ) (before : List Line) (l : Line) (after : List Line) (a v : ℕ)
    → a + 2 ≤ 0xc000
    → v < 65536
    → a + 10 ≤ (write_line dp l (write_lines dp before header_file)).length
    → (write_line dp l (write_lines dp before header_file)).byte (a + 8) ≡ v % 256
    → (write_line dp l (write_lines dp before header_file)).byte (a + 9) ≡ v / 256
    → Apart a 2 after
    → (write_asm dp (before ++ (l ∷ after))).length ≤ 0xffff + 8
    → Fetches (load fresh (write_asm dp (before ++ (l ∷ after)))) a v
unfolding write_asm write_lines
load-word dp fresh before l after a v below small long at_low at_high apart fits = record {
  memory = clear_screen read;
  ended = load_lem fresh f (write_asm-is_basm dp ls) (omega (arith, reach)) fits;
  fetched = λ m e. fetched m e;
}
  where
    ls : List Line
    ls = before ++ (l ∷ after)

    f : File
    f = write_lines dp ls header_file

    mid : File
    mid = write_line dp l (write_lines dp before header_file)

    whole : f ≡ write_lines dp after mid
    whole = write_lines-append dp before (l ∷ after) header_file

    reach : a + 10 ≤ f.length
    reach =
        subst (λ (g : File). a + 10 ≤ g.length) (sym whole)
          (omega (arith, long, write_lines-length dp after mid))

    kept : (o : ℕ) → a + 8 ≤ o → o < a + 10 → f.byte o ≡ mid.byte o
    kept o h k =
        ap (λ (g : File). g.byte o) whole ∙ write_lines-off dp a 2 o mid apart h (omega arith)

    read : ℕ → ℕ
    read = (read_bytes (f.length - 8) 0 f fresh).1

    in_memory : (i : ℕ) → i < 0xc000 → i + 8 < f.length → clear_screen read i ≡ f.byte (i + 8)
    in_memory i h k =
        let found = (read_bytes_lem (f.length - 8) 0 f fresh (omega arith)).1 i in
        ground (arith, found)

    low : clear_screen read a ≡ v % 256
    low =
        in_memory a (omega arith) (omega (arith, reach))
        ∙ kept (a + 8) (omega arith) (omega arith)
        ∙ at_low

    high : clear_screen read (a + 1) ≡ v / 256
    high =
        in_memory (a + 1) (omega arith) (omega (arith, reach))
        ∙ ap f.byte (omega arith)
        ∙ kept (a + 9) (omega arith) (omega arith)
        ∙ at_high

    fetched : (m : Machine) → m.prog ≡ clear_screen read → word_at m a ≡ v
    fetched m e =
        word_of m a (v % 256) (v / 256) (ap (λ g. g a) e ∙ low) (ap (λ g. g (a + 1)) e ∙ high)
          (omega arith) (omega arith)
        ∙ omega arith

-- What the assembler writes is what the emulator fetches: for a line without data whose opcode is
-- not the mark of a line without code, below the screen's addresses, if the later lines of the
-- program stand apart from its two bytes and the whole file fits, `load` returns with a memory in
-- which the word at the line's address is its opcode, whatever the memory held before.
pub load-write_asm :
    (dp : ℕ → ℕ → ℕ) (fresh : ℕ → ℕ) (before : List Line) (l : Line) (after : List Line)
    → l.dataidx ≡ 0
    → l.opcode < 0xffff
    → l.address + 2 ≤ 0xc000
    → Apart l.address 2 after
    → (write_asm dp (before ++ (l ∷ after))).length ≤ 0xffff + 8
    → Fetches (load fresh (write_asm dp (before ++ (l ∷ after)))) l.address l.opcode
load-write_asm dp fresh before l after no_data code below apart fits =
    let f = write_lines dp before header_file in
    let put = write_line-code dp l f no_data code in
    load-word dp fresh before l after l.address l.opcode below (omega arith)
      (write_line-reach dp l f no_data code) put.0 put.1 apart fits

-- The same for the second word of a line that has one.
pub load-write_asm_extra :
    (dp : ℕ → ℕ → ℕ) (fresh : ℕ → ℕ) (before : List Line) (l : Line) (after : List Line)
    → l.dataidx ≡ 0
    → l.opcode < 0xffff
    → has_extra l.type ≡ true
    → l.opextra < 65536
    → l.address + 4 ≤ 0xc000
    → Apart (l.address + 2) 2 after
    → (write_asm dp (before ++ (l ∷ after))).length ≤ 0xffff + 8
    → Fetches (load fresh (write_asm dp (before ++ (l ∷ after)))) (l.address + 2) l.opextra
load-write_asm_extra dp fresh before l after no_data code extra small below apart fits =
    let f = write_lines dp before header_file in
    let put = write_line-extra dp l f no_data code extra in
    load-word dp fresh before l after (l.address + 2) l.opextra (omega arith) small put.0 put.1
      put.2 apart fits
