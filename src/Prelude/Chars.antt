-- ===== src/Prelude/Chars.antt =====
-- What the program uses of <ctype.h> and <string.h>, in the C locale. A C string is the list of
-- its codes without the terminator; a list that holds bytes of memory may have zeros in it.
use Prim.Native.Nat.{ℕ, zero, suc}
use mathlib.Core.Bool.{Bool, true, false, ◌&&◌, ◌||◌}
use mathlib.Core.List.{List, [], ◌∷◌}
use mathlib.Core.Option.{Option, none, some}
use mikode.Prelude.Tests.{leb, ◌==◌, if◌then◌else◌}

abbrev pub isspace : ℕ → Bool
isspace c = c == 32 || (leb 9 c && leb c 13)

abbrev pub isdigit : ℕ → Bool
isdigit c = leb b'0' c && leb c b'9'

abbrev pub isalpha : ℕ → Bool
isalpha c = (leb b'A' c && leb c b'Z') || (leb b'a' c && leb c b'z')

-- The bytes before the first zero.
unfoldable pub c_str : List ℕ → List ℕ
c_str [] = []
c_str (c ∷ s) = if c == 0 then [] else c ∷ c_str s

-- `s[i]`, 0 from the terminator on
abbrev pub char_at : List ℕ → ℕ → ℕ
char_at [] i = 0
char_at (c ∷ s) zero = c
char_at (c ∷ s) (suc i) = char_at s i

-- `strncpy (dest, s, n)`: the `n` bytes that are written
unfoldable pub strncpy : ℕ → List ℕ → List ℕ
strncpy zero s = []
strncpy (suc n) [] = 0 ∷ strncpy n []
strncpy (suc n) (c ∷ s) = c ∷ strncpy n s

-- `strncmp (a, b, n) == 0`
unfoldable pub strncmp : ℕ → List ℕ → List ℕ → Bool
strncmp zero a b = true
strncmp (suc n) [] [] = true
strncmp (suc n) [] (y ∷ b) = false
strncmp (suc n) (x ∷ a) [] = false
strncmp (suc n) (x ∷ a) (y ∷ b) = x == y && strncmp n a b

-- `strcmp (a, b) == 0`
unfoldable pub strcmp : List ℕ → List ℕ → Bool
strcmp [] [] = true
strcmp [] (y ∷ b) = false
strcmp (x ∷ a) [] = false
strcmp (x ∷ a) (y ∷ b) = x == y && strcmp a b

-- Chains of steps that may fail.
infixl 5 ◌>>=◌ ◌>>◌
unfoldable pub ◌>>=◌ {ℓ κ} : {A : Type ℓ} {B : Type κ} → Option A → (A → Option B) → Option B
none >>= f = none
some a >>= f = f a

abbrev pub ◌>>◌ {ℓ} : {B : Type ℓ} → Option (Unit {0}) → Option B → Option B
m >> k = m >>= λ _. k

abbrev pub guard : Bool → Option (Unit {0})
guard true = some tt
guard false = none
