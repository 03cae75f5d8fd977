-- ===== src/Prelude/Holds.antt =====
-- What a step that may fail guarantees of its result.
use mathlib.Core.Bool.{Bool, true, false}
use mathlib.Core.Option
use mathlib.Core.Option.{Option, none, some}
use mathlib.Core.Path.{◌≡◌, refl}
use mikode.Prelude.Tests.{if◌then◌else◌}
use mikode.Prelude.Chars.{◌>>=◌}

pub data Holds {ℓ} {A : Type ℓ} (P : A → Type 0) : Option A → Type ℓ where
  fails : Holds P none
  gives : {a : A} → P a → Holds P (some a)

pub given {ℓ} : {A : Type ℓ} {P : A → Type 0} {a : A} → Holds P (some a) → P a
given (gives h) = h

pub if_Holds {ℓ} :
    {A : Type ℓ} {P : A → Type 0} (b : Bool) {x y : Option A}
    → Holds P x
    → Holds P y
    → Holds P (if b then x else y)
if_Holds true h k = h
if_Holds false h k = k

-- The same where the branches need the test.
pub if_by-Holds {ℓ} :
    {A : Type ℓ} {P : A → Type 0} (b : Bool) {x y : Option A}
    → (b ≡ true → Holds P x)
    → (b ≡ false → Holds P y)
    → Holds P (if b then x else y)
if_by-Holds true h k = h refl
if_by-Holds false h k = k refl

-- A chain holds what its last step holds, whatever the first one gives,
pub any-Holds {ℓ κ} :
    {A : Type ℓ} {B : Type κ} {P : B → Type 0} (m : Option A) {k : A → Option B}
    → ((a : A) → Holds P (k a))
    → Holds P (m >>= k)
unfolding ◌>>=◌
any-Holds none h = fails
any-Holds (some a) h = h a

-- or with what the first one holds.
pub bind-Holds {ℓ κ} :
    {A : Type ℓ} {B : Type κ} {Q : A → Type 0} {P : B → Type 0} {m : Option A} {k : A → Option B}
    → Holds Q m
    → ((a : A) → Q a → Holds P (k a))
    → Holds P (m >>= k)
unfolding ◌>>=◌
bind-Holds fails h = fails
bind-Holds (gives {a} q) h = h a q

pub weaken-Holds {ℓ} :
    {A : Type ℓ} {P Q : A → Type 0} {m : Option A} → Holds P m → ((a : A) → P a → Q a) → Holds Q m
weaken-Holds fails h = fails
weaken-Holds (gives {a} p) h = gives (h a p)

pub known-Holds {ℓ κ} :
    {A : Type ℓ} {B : Type κ} {P : B → Type 0} (m : Option A) {k : A → Option B}
    → ((a : A) → m ≡ some a → Holds P (k a))
    → Holds P (m >>= k)
unfolding ◌>>=◌
known-Holds none h = fails
known-Holds (some a) h = h a refl

pub both-Holds {ℓ} :
    {A : Type ℓ} {P Q : A → Type 0} {m : Option A}
    → Holds P m
    → Holds Q m
    → Holds (λ a. P a × Q a) m
both-Holds fails h = fails
both-Holds (gives p) h = gives (p, given h)

pub map-Holds {ℓ κ} :
    {A : Type ℓ} {B : Type κ} {P : A → Type 0} {Q : B → Type 0} (f : A → B) {m : Option A}
    → Holds P m
    → ((a : A) → P a → Q (f a))
    → Holds Q (Option.map f m)
map-Holds f fails h = fails
map-Holds f (gives {a} p) h = gives (h a p)
