-- ===== src/Assembler/Operand/Text.antt =====
-- What `get_reg` and the operands `Rd,Rr` of src/operand.c read of a text.
use mikode.Prelude.{
  ℕ, suc, ◌+◌, ◌-◌, ◌<◌, ◌≤◌, ◌≡◌, refl, ap, ◌∙◌, arith, Bool, true, false, List, [], ◌∷◌, ◌++◌,
  Option, none, some, if◌then◌else◌, ◌==◌, ltb, all, length, ==_iff, all_below, all_below_sound,
}
use mikode.Prelude.Chars.{isspace, ◌>>=◌, c_str, strncpy, char_at}
use mikode.Assembler.Token.{Buffer, get_token, issymbol}
use mikode.Assembler.Token.Words.{
  Spells, done, step, is_plain, is_blank, get_token-space, get_token-symbol,
}
use mikode.Assembler.Symbols.{Tables, put_def, get_def, copy_10}
use mikode.Assembler.Symbols.Laws.{is_name, c_str-name, get_def-put_def, first_of}
use mikode.Assembler.Line.{Line}
use mikode.Assembler.Encode.{enc_dir_dual}
use mikode.Assembler.Operand.Scanner.{get_reg, get_text, filled}
use mikode.Assembler.Operand.Registers.{op_dir_dual}

-- The digits of a number below 20, and the name of a register.
abbrev digits : ℕ → List ℕ
digits n = if ltb n 10 then (b'0' + n) ∷ [] else b'1' ∷ ((b'0' + (n - 10)) ∷ [])

abbrev pub reg_name : ℕ → List ℕ
reg_name n = b'r' ∷ digits n

abbrev is_reg : Option ℕ → ℕ → Bool
is_reg none n = false
is_reg (some d) n = d == n

is_reg-some : (o : Option ℕ) (n : ℕ) → is_reg o n ≡ true → o ≡ some n
is_reg-some none n h = absurd (cc)
is_reg-some (some d) n h = ap some ((==_iff d n).0 h)

module _ (t : Tables) (n : ℕ) (below : n < 16) where
  -- A register is read by its name, at the end of a token and before a comma.
  pub get_reg-name : get_reg t (reg_name n) ≡ some n
  unfolding get_reg c_str all_below ◌>>=◌
  get_reg-name =
      is_reg-some _ n (all_below_sound 16 (λ n. is_reg (get_reg t (reg_name n)) n) refl n below)

  pub get_reg-name_comma : get_reg t (reg_name n ++ (b',' ∷ [])) ≡ some n
  unfolding get_reg c_str all_below ◌>>=◌
  get_reg-name_comma =
      is_reg-some _ n
        (all_below_sound 16 (λ n. is_reg (get_reg t (reg_name n ++ (b',' ∷ []))) n) refl n below)

name-plain : (n : ℕ) → n < 16 → all is_plain (reg_name n) ≡ true
unfolding all_below
name-plain n h = all_below_sound 16 (λ n. all is_plain (reg_name n)) refl n h

name-length : (n : ℕ) → length (reg_name n) ≤ 3
name-length n = ground arith

name-start : {b : Buffer} {p q : ℕ} (s : List ℕ) → Spells b p (b'r' ∷ s) q → isspace (b p) ≡ false
name-start s (step at w) = rw at refl

-- The operands `rD,rR` with blanks before each, up to a space: the memory `b` has them from `p` on.
pub op_dir_dual-text :
    (t : Tables) (b : Buffer) (l : Line) (p : ℕ) (blanks_d : List ℕ) (at_d d comma : ℕ)
    (blanks_r : List ℕ) (at_r r end : ℕ)
    → d < 16
    → r < 16
    → all is_blank blanks_d ≡ true
    → Spells b p blanks_d at_d
    → Spells b at_d (reg_name d) comma
    → b comma ≡ b','
    → all is_blank blanks_r ≡ true
    → Spells b (suc comma) blanks_r at_r
    → Spells b at_r (reg_name r) end
    → isspace (b end) ≡ true
    → length blanks_d ≤ 500
    → length blanks_r ≤ 500
    → op_dir_dual t b l p ≡ filled (enc_dir_dual l.opcode d r) 2 end l
unfolding op_dir_dual ◌>>=◌
op_dir_dual-text t b l p blanks_d at_d d comma blanks_r at_r r end low_d low_r h₁ w₁ w₂ e h₂ w₃ w₄
      e' k₁ k₂ =
    rw (first, get_reg-name_comma t d low_d, second, third, get_reg-name t r low_r) refl
  where
    no_space : isspace (b comma) ≡ false
    no_space = rw e refl

    symbol : issymbol (b comma) ≡ true
    symbol = rw e refl

    first :
        get_token [] b p ≡ record { tok = reg_name d ++ (b',' ∷ []); pos = suc comma; good = true }
    first =
        get_token-symbol [] b p blanks_d at_d (reg_name d) comma h₁ w₁ (name-plain d low_d) w₂
          (name-start (digits d) w₂) no_space symbol (omega (arith, name-length d))
        ∙ ap (λ c. record { tok = reg_name d ++ (c ∷ []); pos = suc comma; good = true }) e

    second :
        get_token [] b (suc comma - 1) ≡ record { tok = b',' ∷ []; pos = suc comma; good = true }
    second =
        ap (get_token [] b) (omega arith)
        ∙ get_token-symbol [] b comma [] comma [] comma refl done refl done no_space no_space symbol
            (omega arith)
        ∙ ap (λ c. record { tok = c ∷ []; pos = suc comma; good = true }) e

    third : get_token [] b (suc comma) ≡ record { tok = reg_name r; pos = end; good = true }
    third =
        get_token-space [] b (suc comma) blanks_r at_r (reg_name r) end h₂ w₃ (name-plain r low_r)
          w₄ (name-start (digits r) w₄) e' (omega (arith, name-length r))

from_def : (n : ℕ) → n < 16 → get_text (some (copy_10 (reg_name n))) ≡ some n
unfolding get_text c_str strncpy all_below ◌>>=◌
from_def n h =
    is_reg-some _ n
      (all_below_sound 16 (λ n. is_reg (get_text (some (copy_10 (reg_name n)))) n) refl n h)

-- A name that `.def` gave to a register stands for that register, if it does not start with an `r`,
-- is shorter than ten bytes, and nothing was found under it before.
pub get_reg-put_def :
    (s : List ℕ) (t : Tables) (n : ℕ)
    → is_name s ≡ true
    → length s < 10
    → (char_at s 0 == b'r') ≡ false
    → get_def s t ≡ none
    → n < 16
    → get_reg (put_def s (reg_name n) t) s ≡ some n
unfolding get_reg get_text
get_reg-put_def s t n name short no_r fresh low =
    rw (c_str-name s name, no_r)
      (ap get_text (
          get_def-put_def s t name short (reg_name n)
          ∙ ap (λ o. some (first_of o (copy_10 (reg_name n)))) fresh)
        ∙ from_def n low)
