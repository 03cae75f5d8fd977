-- ===== src/Assembler/Operand/Words/Parts.antt =====
-- The registers that src/operand.c reads and the encodings of an opcode with them, as numbers of
-- 4 and of 16 bits.
use mikode.Prelude.{
  ℕ, ◌^◌, ◌<◌, ◌≡◌, refl, arith, Bool, true, false, not, ◌||◌, List, Option, some, ◌==◌, ltb,
  bit_and, bit_or, ◌<<◌,
}
use mathlib.Core.Path.{subst}
use mikode.Prelude.Bits.{bit_or-lt, bit_and-lt, bit_and_comm}
use mikode.Prelude.Holds.{Holds, fails, gives, if_Holds, if_by-Holds, any-Holds, known-Holds}
use mikode.Prelude.Chars.{guard, char_at, c_str}
use mikode.Assembler.Token.{Buffer, Scan}
use mikode.Assembler.Symbols.{Tables, get_def}
use mikode.Assembler.Encode.{
  enc_dir_sing, enc_dir_dual, enc_imm_byte, enc_imm_word, enc_dir_word, enc_branch, enc_br_bit,
  enc_bit, enc_ldstr_bit,
}
use mikode.Assembler.Line.{Line}
use mikode.Assembler.Operand.Registers.{addressing_mode}
use mikode.Assembler.Operand.Scanner.{read_reg, get_text, get_reg}

-- A word of the line's own, and a part that is put into it.
pub or_word : (a b : ℕ) → a < 65536 → b < 65536 → bit_or a b < 65536
or_word a b h k = bit_or-lt 16 a b h k

pub masked-lt : (k v m : ℕ) → m < 2 ^ k → bit_and v m < 2 ^ k
masked-lt k v m h = subst (λ t. t < 2 ^ k) (bit_and_comm m v) (bit_and-lt k m v h)

pub guarded : (b : Bool) (u : Unit {0}) → guard b ≡ some u → b ≡ true
guarded true u h = refl
guarded false u h = absurd (cc)

read_reg-low : (s : List ℕ) → Holds (λ d. d < 16) (read_reg s)
read_reg-low s =
    any-Holds _ λ u.
      known-Holds _ λ u e. let low = guarded (not (ltb 15 _)) u e in gives (ground (arith, low))

get_text-low : (o : Option (List ℕ)) → Holds (λ d. d < 16) (get_text o)
unfolding get_text
get_text-low o = any-Holds o λ v. any-Holds (guard (not (char_at v 0 == 0))) λ u. read_reg-low v

pub get_reg-low : (t : Tables) (s : List ℕ) → Holds (λ d. d < 16) (get_reg t s)
unfolding get_reg
get_reg-low t s =
    if_Holds (char_at (c_str s) 0 == b'r') (read_reg-low (c_str s))
      (get_text-low (get_def (c_str s) t))

-- An addressing mode is a mask of two bits.
pub addressing_mode-low :
    (t : Tables) (b : Buffer) (l : Line) (p plain : ℕ) (s : Scan)
    → Holds (λ m. m < 16) (addressing_mode t b l p plain s)
addressing_mode-low t b l p plain s =
    let c = char_at s.tok 0 in
    let d = char_at s.tok 1 in
    if_Holds (c == b'X' || c == b'Y')
      (if_Holds (d == plain) (gives {a = 0x00} (omega arith))
        (if_Holds (d == b'+') (gives {a = 0x01} (omega arith)) fails))
      (if_Holds (c == b'-')
        (if_Holds (d == b'X' || d == b'Y') (gives {a = 0x02} (omega arith)) fails) fails)

-- The encodings, for registers below 16.
module _ (op : ℕ) (fits : op < 65536) where
  pub dir_sing-word : (d : ℕ) → d < 16 → enc_dir_sing op d < 65536
  unfolding enc_dir_sing
  dir_sing-word d h = or_word op (d << 4) fits (omega arith)

  pub dir_dual-word : (d r : ℕ) → d < 16 → r < 16 → enc_dir_dual op d r < 65536
  unfolding enc_dir_dual
  dir_dual-word d r h k = or_word _ r (or_word op (d << 4) fits (omega arith)) (omega arith)

  pub imm_byte-word : (d v : ℕ) → d < 16 → enc_imm_byte op d v < 65536
  unfolding enc_imm_byte
  imm_byte-word d v h =
      or_word _ _
        (or_word _ _ (or_word op (d << 4) fits (omega arith))
          (masked-lt 16 (v << 4) 0x0f00 (omega arith)))
        (masked-lt 16 v 0x000f (omega arith))

  pub branch-word : (v : ℕ) → enc_branch op v < 65536
  unfolding enc_branch
  branch-word v =
      let low = masked-lt 7 v 0x007f (omega arith) in
      or_word op (bit_and v 0x007f << 3) fits (omega (arith, low))

  pub br_bit-word : (b v : ℕ) → Holds (λ w. w < 65536) (enc_br_bit op b v)
  unfolding enc_br_bit
  br_bit-word b v =
      let low = masked-lt 7 v 0x007f (omega arith) in
      if_Holds _ fails (
        gives (
          or_word _ (bit_and v 0x007f << 3) (or_word op _ fits (masked-lt 16 b 0x07 (omega arith)))
            (omega (arith, low))))

  pub bit-word : (b : ℕ) → Holds (λ w. w < 65536) (enc_bit op b)
  unfolding enc_bit
  bit-word b =
      let low = masked-lt 3 b 0x07 (omega arith) in
      if_Holds _ fails (gives (or_word op (bit_and b 0x07 << 4) fits (omega (arith, low))))

  pub ldstr_bit-word : (d b : ℕ) → Holds (λ w. w < 65536) (enc_ldstr_bit op d b)
  unfolding enc_ldstr_bit
  ldstr_bit-word d b =
      let low = masked-lt 4 d 0x0f (omega arith) in
      if_by-Holds (ltb 7 b) (λ e. fails)
        λ e.
          gives (
            or_word _ b (or_word op (bit_and d 0x0f << 4) fits (omega (arith, low))) (ground arith))

  pub imm_word-word : (d dl v : ℕ) → Holds (λ w. w < 65536) (enc_imm_word op d dl v)
  unfolding enc_imm_word
  imm_word-word d dl v =
      let pair = masked-lt 3 dl 0x06 (omega arith) in
      if_Holds _ fails (
        gives (
          or_word _ _
            (or_word _ _ (or_word op (bit_and dl 0x06 << 3) fits (omega (arith, pair)))
              (masked-lt 16 (v << 2) 0x00c0 (omega arith)))
            (masked-lt 16 v 0x000f (omega arith))))

  pub dir_word-word : (d dl r rl : ℕ) → Holds (λ w. w < 65536) (enc_dir_word op d dl r rl)
  unfolding enc_dir_word
  dir_word-word d dl r rl =
      let pair = masked-lt 4 dl 0x0f (omega arith) in
      if_Holds _ fails (
        if_Holds _ fails (
          gives (
            or_word _ _ (or_word op (bit_and dl 0x0f << 4) fits (omega (arith, pair)))
              (masked-lt 16 rl 0x0f (omega arith)))))
