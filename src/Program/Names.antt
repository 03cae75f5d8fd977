-- ===== src/Program/Names.antt =====
-- The names of files that src/parse.c and src/write.c make out of the name of a source.
use mikode.Prelude.{
  ℕ, zero, suc, ◌+◌, ◌-◌, ◌<◌, ◌≤◌, ◌≡◌, refl, ap, arith, true, List, [], ◌∷◌, ◌++◌, codes, length,
  leb,
}
use mikode.Prelude.Chars.{strcmp}
use mikode.Gpio.{first}
use mikode.Program.Compile.{drop, is_asm, object_name}

pub length-append : (s t : List ℕ) → length (s ++ t) ≡ length s + length t
length-append [] t = omega arith
length-append (c ∷ s) t = omega (arith, length-append s t)

pub first-short : (n : ℕ) (s : List ℕ) → length s ≤ n → first n s ≡ s
first-short zero [] h = refl
first-short zero (c ∷ s) h = absurd (omega arith)
first-short (suc n) [] h = refl
first-short (suc n) (c ∷ s) h = ap (◌∷◌ c) (first-short n s (omega arith))

first-append : (s t : List ℕ) → first (length s) (s ++ t) ≡ s
first-append [] t = refl
first-append (c ∷ s) t = ap (◌∷◌ c) (first-append s t)

drop-append : (s t : List ℕ) → drop (length s) (s ++ t) ≡ t
drop-append [] t = refl
drop-append (c ∷ s) t = drop-append s t

pub strcmp-same : (s : List ℕ) → strcmp s s ≡ true
unfolding strcmp
strcmp-same [] = refl
strcmp-same (c ∷ s) = let rest = strcmp-same s in ground (arith, rest)

-- The length of a name without its ending.
cut : (s : List ℕ) → length (s ++ codes ".asm") - 4 ≡ length s
cut s = omega (arith, length-append s (codes ".asm"))

-- The source file of a name.
abbrev pub source : List ℕ → List ℕ
source stem = stem ++ codes ".asm"

pub is_asm-source : (s : List ℕ) → is_asm (source s) ≡ true
unfolding is_asm
is_asm-source s =
    let sum = length-append s (codes ".asm") in
    let long : leb 4 (length (s ++ codes ".asm")) ≡ true = ground (arith, sum) in
    rw (long, cut s, drop-append s (codes ".asm")) (strcmp-same (codes ".asm"))

pub object_name-source : (s : List ℕ) → length s < 28 → object_name (source s) ≡ s
unfolding object_name
object_name-source s h =
    let sum = length-append s (codes ".asm") in
    let whole = first-short 32 (s ++ codes ".asm") (omega (arith, sum)) in
    rw (whole, cut s) (first-append s (codes ".asm"))
