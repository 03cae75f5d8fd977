-- ===== src/Assembler/Token/Words.antt =====
-- What `get_token` of src/token.c reads of a text: the blanks in front of a word, and the word up
-- to a space or with the symbol that ends it.
use mikode.Prelude.{
  ℕ, zero, suc, ◌+◌, ◌-◌, ◌<◌, ◌≤◌, ◌≡◌, refl, ap, ◌∙◌, arith, Bool, true, false, not, ◌&&◌, List,
  [], ◌∷◌, ◌++◌, ◌==◌, all, length,
}
use mikode.Prelude.Chars.{isspace}
use mikode.Assembler.Token.{
  Buffer, word, skip_spaces, read_word, issymbol, get_token, after_lead, scanned, max_buf,
}

-- The memory has the given bytes from one index to another.
pub data Spells (b : Buffer) : ℕ → List ℕ → ℕ → Type 0 where
  done : {p : ℕ} → Spells b p [] p
  step : {p c : ℕ} {s : List ℕ} {q : ℕ} → b p ≡ c → Spells b (suc p) s q → Spells b p (c ∷ s) q

-- Neither a space nor a symbol
abbrev pub is_plain : ℕ → Bool
is_plain c = not (isspace c) && not (issymbol c)

-- A space other than a newline
abbrev pub is_blank : ℕ → Bool
is_blank c = isspace c && not (c == b'\n')

-- Both parts of a conjunction, the second or both of them negated.
parts : (x y : Bool) → (x && y) ≡ true → (x ≡ true) × (y ≡ true)
parts true true h = (refl, refl)
parts true false h = absurd (cc)
parts false y h = absurd (cc)

negated : (x : Bool) → not x ≡ true → x ≡ false
negated true h = absurd (cc)
negated false h = refl

skip_spaces-blanks :
    (s : List ℕ) (left : ℕ) (b : Buffer) (p q : ℕ)
    → all is_blank s ≡ true
    → Spells b p s q
    → isspace (b q) ≡ false
    → length s < left
    → skip_spaces left b p ≡ word (left - length s) q
unfolding skip_spaces
skip_spaces-blanks s zero b p q h w e k = absurd (omega arith)
skip_spaces-blanks [] (suc left) b p _ h done e k = rw e (ap (λ n. word n p) (omega arith))
skip_spaces-blanks (c ∷ s) (suc left) b p q h (step at w) e k =
    let now = parts (is_blank c) (all is_blank s) h in
    let split = parts (isspace c) (not (c == b'\n')) now.0 in
    let space = ap isspace at ∙ split.0 in
    let no_newline = ap (λ c. c == b'\n') at ∙ negated _ split.1 in
    rw (space, no_newline)
      (skip_spaces-blanks s left b (suc p) q now.1 w e (omega arith)
        ∙ ap (λ n. word n q) (omega arith))

module _ {c : ℕ} (b : Buffer) (p : ℕ) (h : is_plain c ≡ true) (at : b p ≡ c) where
  plain_parts : (isspace c ≡ false) × (issymbol c ≡ false)
  plain_parts =
      let split = parts (not (isspace c)) (not (issymbol c)) h in
      (negated _ split.0, negated _ split.1)

  -- A plain byte is written and stepped over.
  read_word-step :
      (left : ℕ)
      → read_word (suc left) b p ≡ (
        c ∷ (read_word left b (suc p)).0,
        (read_word left b (suc p)).1,
        (read_word left b (suc p)).2,
      )
  unfolding read_word
  read_word-step left =
      let no_space = ap isspace at ∙ plain_parts.0 in
      let no_symbol = ap issymbol at ∙ plain_parts.1 in
      rw (no_space, no_symbol)
        (ap
          (λ x. (
            x ∷ (read_word left b (suc p)).0,
            (read_word left b (suc p)).1,
            (read_word left b (suc p)).2,
          ))
          at)

read_word-space :
    (s : List ℕ) (left : ℕ) (b : Buffer) (p q : ℕ)
    → all is_plain s ≡ true
    → Spells b p s q
    → isspace (b q) ≡ true
    → length s ≤ left
    → read_word left b p ≡ (s, q, true)
unfolding read_word
read_word-space [] zero b p _ h done e k = rw e refl
read_word-space [] (suc left) b p _ h done e k = rw e refl
read_word-space (c ∷ s) zero b p q h w e k = absurd (omega arith)
read_word-space (c ∷ s) (suc left) b p q h (step at w) e k =
    let rest =
      read_word-space s left b (suc p) q ((parts (is_plain c) (all is_plain s) h).1) w e
        (omega arith) in
    read_word-step b p ((parts (is_plain c) (all is_plain s) h).0) at left
    ∙ ap (λ (r : List ℕ × ℕ × Bool). (c ∷ r.0, r.1, r.2)) rest

read_word-symbol :
    (s : List ℕ) (left : ℕ) (b : Buffer) (p q : ℕ)
    → all is_plain s ≡ true
    → Spells b p s q
    → isspace (b q) ≡ false
    → issymbol (b q) ≡ true
    → length s < left
    → read_word left b p ≡ (s ++ (b q ∷ []), suc q, true)
unfolding read_word
read_word-symbol s zero b p q h w e y k = absurd (omega arith)
read_word-symbol [] (suc left) b p _ h done e y k = rw (e, y) refl
read_word-symbol (c ∷ s) (suc left) b p q h (step at w) e y k =
    let rest =
      read_word-symbol s left b (suc p) q ((parts (is_plain c) (all is_plain s) h).1) w e y
        (omega arith) in
    read_word-step b p ((parts (is_plain c) (all is_plain s) h).0) at left
    ∙ ap (λ (r : List ℕ × ℕ × Bool). (c ∷ r.0, r.1, r.2)) rest

-- Behind blanks, a word that a space ends is read whole, up to the space.
pub get_token-space :
    (old : List ℕ) (b : Buffer) (p : ℕ) (blanks : List ℕ) (q : ℕ) (text : List ℕ) (end : ℕ)
    → all is_blank blanks ≡ true
    → Spells b p blanks q
    → all is_plain text ≡ true
    → Spells b q text end
    → isspace (b q) ≡ false
    → isspace (b end) ≡ true
    → length blanks + length text ≤ max_buf
    → get_token old b p ≡ record { tok = text; pos = end; good = true }
unfolding get_token after_lead
get_token-space old b p blanks q text end h₁ w₁ h₂ w₂ e₁ e₂ k =
    ap (after_lead old b) (skip_spaces-blanks blanks (suc max_buf) b p q h₁ w₁ e₁ (omega arith))
    ∙ ap scanned (read_word-space text (suc max_buf - length blanks) b q end h₂ w₂ e₂ (omega arith))

-- A word, even an empty one, that a symbol ends is read with it.
pub get_token-symbol :
    (old : List ℕ) (b : Buffer) (p : ℕ) (blanks : List ℕ) (q : ℕ) (text : List ℕ) (end : ℕ)
    → all is_blank blanks ≡ true
    → Spells b p blanks q
    → all is_plain text ≡ true
    → Spells b q text end
    → isspace (b q) ≡ false
    → isspace (b end) ≡ false
    → issymbol (b end) ≡ true
    → length blanks + length text ≤ max_buf
    → get_token old b p ≡ record { tok = text ++ (b end ∷ []); pos = suc end; good = true }
unfolding get_token after_lead
get_token-symbol old b p blanks q text end h₁ w₁ h₂ w₂ e₁ e₂ y k =
    ap (after_lead old b) (skip_spaces-blanks blanks (suc max_buf) b p q h₁ w₁ e₁ (omega arith))
    ∙ ap scanned
        (read_word-symbol text (suc max_buf - length blanks) b q end h₂ w₂ e₂ y (omega arith))
