-- ===== src/Assembler/Symbols/Laws.antt =====
-- What `get_equate` and `get_def` of src/directive.c find of what `put_equate` and `put_def`
-- stored.
use mathlib.Core.Option
use mikode.Prelude.{
  ℕ, zero, suc, ◌<◌, ◌≡◌, refl, ap, ◌∙◌, arith, Bool, true, false, ◌&&◌, not, List, [], ◌∷◌, ◌++◌,
  Option, none, some, ◌==◌, all, length, replicate, if◌then◌else◌, ==_iff, Bool-cases, inl, inr,
}
use mikode.Prelude.Chars.{c_str, strncpy, strncmp}
use mikode.Assembler.Symbols.{
  Equate, Def, Tables, Value, number, text, value_of, copy_10, put_equate, put_def, equate_matches,
  def_matches, find_equate, find_def, get_equate, get_def,
}

-- A name that fits into the array of ten bytes with its terminator.
abbrev pub is_name : List ℕ → Bool
is_name s = all (λ c. not (c == 0)) s

both : (x y : Bool) → (x && y) ≡ true → (x ≡ true) × (y ≡ true)
both true y h = (refl, h)
both false y h = absurd (cc)

negated : (x : Bool) → not x ≡ true → x ≡ false
negated true h = absurd (cc)
negated false h = refl

pub c_str-name : (s : List ℕ) → is_name s ≡ true → c_str s ≡ s
unfolding c_str
c_str-name [] h = refl
c_str-name (c ∷ s) h =
    let now = both (not (c == 0)) (is_name s) h in
    rw (negated (c == 0) now.0) (ap (◌∷◌ c) (c_str-name s now.1))

c_str-copy :
    (n : ℕ) (s rest : List ℕ) → is_name s ≡ true → length s < n → c_str (strncpy n s ++ rest) ≡ s
unfolding c_str strncpy
c_str-copy zero s rest h k = absurd (omega arith)
c_str-copy (suc n) [] rest h k = refl
c_str-copy (suc n) (c ∷ s) rest h k =
    let now = both (not (c == 0)) (is_name s) h in
    rw (negated (c == 0) now.0) (ap (◌∷◌ c) (c_str-copy n s rest now.1 (omega arith)))

strncmp-same : (s : List ℕ) → strncmp (length s) s s ≡ true
unfolding strncmp
strncmp-same [] = refl
strncmp-same (c ∷ s) = rw ((==_iff c c).1 refl) (strncmp-same s)

module _ (s : List ℕ) (name : is_name s ≡ true) (short : length s < 10) where
  key_of : (rest : List ℕ) → c_str (copy_10 s ++ rest) ≡ s
  key_of rest =
      ap (λ x. c_str (strncpy 10 x ++ rest)) (c_str-name s name) ∙ c_str-copy 10 s rest name short

  matches : (rest : List ℕ) → strncmp (length s) s (c_str (copy_10 s ++ rest)) ≡ true
  matches rest = rw (key_of rest) (strncmp-same s)

  def_match :
      (rest : List ℕ)
      → strncmp (length (c_str (copy_10 s ++ rest))) s (c_str (copy_10 s ++ rest)) ≡ true
  def_match rest = rw (key_of rest) (strncmp-same s)

-- What was found before, or else the new entry.
abbrev pub first_of : {A : Type 0} → Option A → A → A
first_of none a = a
first_of (some b) a = b

map-first :
    {A B : Type 0} (f : A → B) (o : Option A) (a : A)
    → Option.map f (some (first_of o a)) ≡ some (first_of (Option.map f o) (f a))
map-first f none a = refl
map-first f (some b) a = refl

find_equate-append :
    (b : List ℕ) (es : List Equate) (e : Equate)
    → equate_matches b e ≡ true
    → find_equate b (es ++ (e ∷ [])) ≡ some (first_of (find_equate b es) e)
unfolding find_equate
find_equate-append b [] e h = rw h refl
find_equate-append b (f ∷ es) e h = elim (Bool-cases (equate_matches b f)) [
  | inl k ↦ rw k refl
  | inr k ↦ rw k (find_equate-append b es e h)
]

find_def-append :
    (b : List ℕ) (ds : List Def) (d : Def)
    → def_matches b d ≡ true
    → find_def b (ds ++ (d ∷ [])) ≡ some (first_of (find_def b ds) d)
unfolding find_def
find_def-append b [] d h = rw h refl
find_def-append b (f ∷ ds) d h = elim (Bool-cases (def_matches b f)) [
  | inl k ↦ rw k refl
  | inr k ↦ rw k (find_def-append b ds d h)
]

-- A text, if there is one, stands before the number.
abbrev pub stored : Option (List ℕ) → ℕ → Value
stored none n = number n
stored (some []) n = number n
stored (some (c ∷ v)) n = if c == 0 then number n else text (copy_10 (c ∷ v))

stored-value :
    (c : ℕ) (v : List ℕ) (n : ℕ)
    → value_of (record { key = []; str_val = copy_10 (c ∷ v); int_val = n })
      ≡ stored (some (c ∷ v)) n
unfolding c_str strncpy
stored-value c v n = elim (Bool-cases (c == 0)) [
  | inl zero_byte ↦ rw zero_byte refl
  | inr some_byte ↦ rw (some_byte, some_byte) refl
]

module _ (s : List ℕ) (t : Tables) (name : is_name s ≡ true) (short : length s < 10) where
  last_found :
      (v : List ℕ) (n : ℕ)
      → get_equate s (record t {
        equates = t.equates ++ (record { key = copy_10 s; str_val = v; int_val = n } ∷ []);
      })
        ≡ some (
            first_of
              (get_equate s t)
              (value_of (record { key = copy_10 s; str_val = v; int_val = n })))
  unfolding get_equate
  last_found v n =
      let e : Equate = record { key = copy_10 s; str_val = v; int_val = n } in
      ap (Option.map value_of) (find_equate-append s t.equates e (matches s name short v))
      ∙ map-first value_of (find_equate s t.equates) e

  -- What is stored under a name shorter than ten bytes is found under it, unless an entry before it
  -- is: a label as its address; a text as its first ten bytes; and what comes with an array that
  -- starts with a zero byte as its number.
  pub get_equate-put_equate :
      (inval : Option (List ℕ)) (n : ℕ)
      → get_equate s (put_equate s inval n t) ≡ some (first_of (get_equate s t) (stored inval n))
  unfolding put_equate c_str strncpy
  get_equate-put_equate none n = last_found (replicate 10 0) n
  get_equate-put_equate (some []) n = last_found (copy_10 []) n
  get_equate-put_equate (some (c ∷ v)) n =
      last_found (copy_10 (c ∷ v)) n
      ∙ ap (λ x. some (first_of (get_equate s t) x)) (stored-value c v n)

  -- The same for the text of a definition, of which ten bytes are kept.
  pub get_def-put_def :
      (v : List ℕ) → get_def s (put_def s v t) ≡ some (first_of (get_def s t) (copy_10 v))
  unfolding get_def put_def
  get_def-put_def v =
      let d : Def = record { key = copy_10 s; str_val = copy_10 v } in
      ap (Option.map (λ d. d.str_val))
        (find_def-append s t.defs d (def_match s name short (copy_10 v)))
      ∙ map-first (λ d. d.str_val) (find_def s t.defs) d
