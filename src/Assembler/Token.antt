-- ===== src/Assembler/Token.antt =====
-- src/token.c. A line is read through `char **b`; here it is the memory `b` and an index into it,
-- and each function gives the index that it leaves. `tok` is the list of the bytes that are
-- written; it can be longer than the callers' arrays, and hold a zero where the line had one.
pub mod Laws
pub mod Words
use mikode.Prelude.{
  ℕ, zero, suc, ◌+◌, ◌-◌, Bool, true, false, ◌||◌, List, [], ◌∷◌, Option, some, none,
}
use mathlib.Core.Option
use mikode.Prelude.{◌++◌, ◌==◌, if◌then◌else◌}
use mikode.Prelude.Chars.{isspace}

abbrev pub Buffer : Type 0
Buffer = ℕ → ℕ

abbrev pub max_buf : ℕ
max_buf = 512

abbrev pub issymbol : ℕ → Bool
issymbol c =
    c == b'='
    || c == b','
    || c == b':'
    || c == b';'
    || c == b'"'
    || c == b'\''
    || c == b'('
    || c == b')'

-- How the first loop of `get_token` and `get_patch_label` ends: at a word, with the rounds that
-- are left, at a newline, or on `i > MAX_BUF`.
pub data Lead : Type 0 where
  word : ℕ → ℕ → Lead
  newline : ℕ → Lead
  long : ℕ → Lead

-- `left` is `MAX_BUF + 1 - i`.
unfoldable pub skip_spaces : ℕ → Buffer → ℕ → Lead
skip_spaces zero b p = if isspace (b p) then long p else word zero p
skip_spaces (suc left) b p =
    let rest = skip_spaces left b (suc p) in
    if isspace (b p) then (if b p == b'\n' then newline p else rest) else word (suc left) p

-- The second loop: the bytes written, the index, and whether it ended before `i > MAX_BUF`.
unfoldable pub read_word : ℕ → Buffer → ℕ → List ℕ × ℕ × Bool
read_word zero b p = if isspace (b p) then ([], p, true) else ([], p, false)
read_word (suc left) b p =
    let c = b p in
    let rest = read_word left b (suc p) in
    if isspace c
    then ([], p, true)
    else if issymbol c
    then (c ∷ [], suc p, true)
    else (c ∷ rest.0, rest.1, rest.2)

-- `tok` and `*b` after a call, and whether it returned other than -1.
pub record Scan : Type 0 where
  pub tok : List ℕ
  pub pos : ℕ
  pub good : Bool

abbrev scanned : List ℕ × ℕ × Bool → Scan
scanned r = record { tok = r.0; pos = r.1; good = r.2 }

-- `old` is what `tok` held before; it stays if only spaces were read.
after_lead : List ℕ → Buffer → Lead → Scan
unfolding read_word
after_lead old b (word left p) = scanned (read_word left b p)
after_lead old b (newline p) = record { tok = b'\n' ∷ []; pos = p; good = true }
after_lead old b (long p) = record { tok = old; pos = p; good = false }

unfoldable pub get_token : List ℕ → Buffer → ℕ → Scan
unfolding skip_spaces after_lead
get_token old b p = after_lead old b (skip_spaces (suc max_buf) b p)

-- The second loop of `get_patch_label`; `left` is `MAX_BUF - i`. The byte that ends it is stored
-- and not stepped over.
unfoldable pub read_label : ℕ → Buffer → ℕ → List ℕ × ℕ
read_label zero b p = ([], p)
read_label (suc left) b p =
    let c = b p in
    let rest = read_label left b (suc p) in
    if c == b',' || c == b';' || c == b'\n' then (c ∷ [], p) else (c ∷ rest.0, rest.1)

after_label_lead : List ℕ → Buffer → Lead → Scan
unfolding read_label
after_label_lead old b (word left p) =
    let (t, q) = read_label (left - 1) b p in
    record { tok = t ++ (b'\n' ∷ []); pos = q; good = true }
after_label_lead old b (newline p) = record { tok = b'\n' ∷ []; pos = p; good = true }
after_label_lead old b (long p) = record { tok = old; pos = p; good = false }

unfoldable pub get_patch_label : List ℕ → Buffer → ℕ → Scan
unfolding skip_spaces after_label_lead
get_patch_label old b p = after_label_lead old b (skip_spaces (suc max_buf) b p)

abbrev pub max_data : ℕ
max_data = 255

-- `left` is `MAX_DATA + 1 - i`; `none` is -1.
unfoldable pub read_comment : ℕ → Buffer → ℕ → Option (List ℕ)
read_comment zero b p = none
read_comment (suc left) b p =
    let rest = read_comment left b (suc p) in
    if b p == b'\n' then some [] else Option.map (λ t. b p ∷ t) rest

unfoldable pub get_comment : Buffer → ℕ → Option (List ℕ)
unfolding read_comment
get_comment b p = read_comment (suc max_data) b p
