-- ===== src/Gpio/Calls.antt =====
-- The calls that src/pi_gpio.c makes of the operating system, and steps that make them.
use mikode.Prelude.{ℕ, Bool, List, [], ◌∷◌, ◌++◌, Option, if◌then◌else◌}

-- A call: the path, the descriptor, or the descriptor and the bytes.
pub data Call : Type 0 where
  opens : List ℕ → Call
  writes : ℕ → List ℕ → Call
  reads : ℕ → Call
  closes : ℕ → Call

-- What a name of /sys/class/gpio is: whether it is a link, what `fgets` reads from the file `label`
-- behind it, and from `base`; the outer `none` is a file that cannot be opened, and the inner one
-- of `base` a file without a line.
pub record Entry : Type 0 where
  pub name : List ℕ
  pub is_link : Bool
  pub label : Option (List ℕ)
  pub base : Option (Option (List ℕ))

-- What the calls answer, which may depend on all calls that were made before; `none` is -1. A file is
-- always closed. `value_str` is what that array of three bytes holds when `gpio_read` is called.
pub record System : Type 0 where
  pub opened : List Call → List ℕ → Option ℕ
  pub written : List Call → ℕ → List ℕ → Option ℕ
  pub bytes_read : List Call → ℕ → Option (List ℕ)
  pub value_str : List Call → List ℕ
  pub directory : Option (List Entry)

-- The static arrays of src/pi_gpio.c, each `int` by its pattern of 32 bits, and the calls so far.
pub record Port : Type 0 where
  pub pin_map : ℕ → ℕ
  pub gpio_fds : ℕ → ℕ
  pub calls : List Call

-- An `int` result: 0 with a value, or the negative number with this amount.
pub data Answer {ℓ} (A : Type ℓ) : Type ℓ where
  returned : A → Answer A
  failed : ℕ → Answer A

abbrev pub Step {ℓ} : Type ℓ → Type ℓ
Step A = Port → Answer A × Port

module _ {ℓ} {A : Type ℓ} where
  unfoldable pub pure : A → Step A
  pure a p = (returned a, p)

  unfoldable pub fail : ℕ → Step A
  fail code p = (failed code, p)

module _ {ℓ κ} {A : Type ℓ} {B : Type κ} where
  abbrev pub and_then : (A → Step B) → Answer A × Port → Answer B × Port
  and_then k (returned a, p) = k a p
  and_then k (failed code, p) = (failed code, p)

  infixl 5 ◌>>=◌ ◌>>◌
  unfoldable pub ◌>>=◌ : Step A → (A → Step B) → Step B
  unfolding pure fail
  ◌>>=◌ m k p = and_then k (m p)

  abbrev pub ◌>>◌ : Step A → Step B → Step B
  m >> n = m >>= λ _. n

abbrev pub log : Call → Port → Port
log c p = record p { calls = p.calls ++ (c ∷ []) }

unfoldable pub sys_open : System → List ℕ → Step (Option ℕ)
sys_open os path p = (returned (os.opened p.calls path), log (opens path) p)

unfoldable pub sys_write : System → ℕ → List ℕ → Step (Option ℕ)
sys_write os fd bytes p = (returned (os.written p.calls fd bytes), log (writes fd bytes) p)

unfoldable pub sys_read : System → ℕ → Step (Option (List ℕ))
sys_read os fd p = (returned (os.bytes_read p.calls fd), log (reads fd) p)

unfoldable pub sys_close : ℕ → Step (Unit {0})
sys_close fd p = (returned tt, log (closes fd) p)

-- `if (b) return -1;`
unfoldable pub fail_if : Bool → Step (Unit {0})
unfolding fail pure
fail_if b = if b then fail 1 else pure tt
