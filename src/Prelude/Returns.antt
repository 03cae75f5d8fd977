-- ===== src/Prelude/Returns.antt =====
-- That a step that may fail gives a result, and what holds of it.
use mathlib.Core.Bool.{Bool, true, false}
use mathlib.Core.Option.{Option, some}
use mathlib.Core.Path.{◌≡◌, refl}
use mikode.Prelude.Tests.{if◌then◌else◌}
use mikode.Prelude.Holds.{Holds, given}
use mikode.Prelude.Chars.{◌>>=◌}

pub data Returns {ℓ} {A : Type ℓ} (P : A → Type 0) : Option A → Type ℓ where
  returns : {a : A} → P a → Returns P (some a)

pub if_Returns {ℓ} :
    {A : Type ℓ} {P : A → Type 0} (b : Bool) {x y : Option A}
    → (b ≡ true → Returns P x)
    → (b ≡ false → Returns P y)
    → Returns P (if b then x else y)
if_Returns true h k = h refl
if_Returns false h k = k refl

pub bind-Returns {ℓ κ} :
    {A : Type ℓ} {B : Type κ} {Q : A → Type 0} {P : B → Type 0} {m : Option A} {k : A → Option B}
    → Returns Q m
    → ((a : A) → Q a → Returns P (k a))
    → Returns P (m >>= k)
unfolding ◌>>=◌
bind-Returns (returns {a} q) h = h a q

pub held-Returns {ℓ} :
    {A : Type ℓ} {P Q : A → Type 0} {m : Option A} → Holds P m → Returns Q m → Returns P m
held-Returns h (returns q) = returns (given h)
