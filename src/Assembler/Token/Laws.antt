-- ===== src/Assembler/Token/Laws.antt =====
-- Where a token of src/token.c starts.
use mikode.Prelude.{ℕ, suc, ◌≡◌, refl, ap, ◌∙◌, Bool, true, false, List, if◌then◌else◌}
use mikode.Prelude.Chars.{isspace, char_at}
use mikode.Assembler.Token.{
  Buffer, word, skip_spaces, read_word, issymbol, get_token, after_lead, max_buf,
}

skip_spaces-word :
    (n : ℕ) (b : Buffer) (p : ℕ) → isspace (b p) ≡ false → skip_spaces (suc n) b p ≡ word (suc n) p
unfolding skip_spaces
skip_spaces-word n b p h = rw h refl

abbrev head : List ℕ × ℕ × Bool → ℕ
head r = char_at r.0 0

if_head :
    (s : Bool) (c : ℕ) (x y : List ℕ × ℕ × Bool)
    → head x ≡ c
    → head y ≡ c
    → head (if s then x else y) ≡ c
if_head true c x y h k = h
if_head false c x y h k = k

read_word-head :
    (n : ℕ) (b : Buffer) (p : ℕ) → isspace (b p) ≡ false → head (read_word (suc n) b p) ≡ b p
unfolding read_word
read_word-head n b p h = rw h (if_head (issymbol (b p)) (b p) _ _ refl refl)

-- A token from a byte that is no space starts with that byte.
pub get_token-head :
    (old : List ℕ) (b : Buffer) (p : ℕ)
    → isspace (b p) ≡ false
    → char_at (get_token old b p).tok 0 ≡ b p
unfolding get_token after_lead
get_token-head old b p h =
    ap (λ lead. char_at (after_lead old b lead).tok 0) (skip_spaces-word max_buf b p h)
    ∙ read_word-head max_buf b p h
