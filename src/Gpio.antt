-- ===== src/Gpio.antt =====
-- The pins of src/pi_gpio.c, one at a time and all together.
pub mod Calls
pub mod Setup
pub mod Read
pub mod Exports
pub mod RunIo
use mathlib.Core.Option
use mikode.Prelude.{
  ℕ, zero, suc, ◌+◌, ◌-◌, ◌^◌, Bool, true, false, not, ◌&&◌, ◌||◌, List, [], ◌∷◌, ◌++◌, Option,
  some, none, if◌then◌else◌, ◌==◌, ltb, u8, ◌<<◌, bit_and, bit_or, codes, length,
}
use mikode.Prelude.Chars.{strncmp, strncpy, c_str}
use mikode.Machine.{update}
use mikode.Assembler.Value.{strtol}
use mikode.Assembler.Value.Decimal.{decimal}
use mikode.Gpio.Calls.{
  System, Entry, Port, Step, returned, pure, fail, ◌>>=◌, ◌>>◌, sys_open, sys_write, sys_read,
  sys_close, fail_if,
}

-- `%d`
unfoldable pub print_int : ℕ → List ℕ
unfolding decimal
print_int n = if ltb n (2 ^ 31) then decimal 10 n else b'-' ∷ decimal 10 (2 ^ 32 - n)

-- `snprintf (buffer, n + 1, …)`: what stands before the terminator
abbrev pub first : ℕ → List ℕ → List ℕ
first zero s = []
first (suc n) [] = []
first (suc n) (c ∷ s) = c ∷ first n s

abbrev is_none {ℓ} : {A : Type ℓ} → Option A → Bool
is_none none = true
is_none (some a) = false

-- The `int` -1 where there is no descriptor.
abbrev fd_of : Option ℕ → ℕ
fd_of none = 2 ^ 32 - 1
fd_of (some fd) = fd

-- `1 == write (…)`
abbrev wrote_one : Option ℕ → Bool
wrote_one none = false
wrote_one (some n) = n == 1

abbrev pub value_max : ℕ
value_max = 35

abbrev pub direction_max : ℕ
direction_max = 40

abbrev pub direction_path : ℕ → List ℕ
direction_path n =
    first (direction_max - 1) (codes "/sys/class/gpio/gpio" ++ (print_int n ++ codes "/direction"))

abbrev pub value_path : ℕ → List ℕ
value_path n =
    first (value_max - 1) (codes "/sys/class/gpio/gpio" ++ (print_int n ++ codes "/value"))

-- The pin that is written to `export`, from a buffer of five; behind the terminator, where the
-- code reads for a number of more than four characters, zeros stand.
abbrev pub pin_text : ℕ → List ℕ
pin_text n = let s = print_int n in strncpy (length s) (first 4 s)

-- What `read` puts over the front of a buffer.
abbrev pub overlay : List ℕ → List ℕ → List ℕ
overlay [] s = s
overlay (b ∷ bytes) [] = []
overlay (b ∷ bytes) (c ∷ s) = b ∷ overlay bytes s

-- `atoi`, as the pattern of its `int`
abbrev pub atoi : List ℕ → ℕ
atoi s = elim (strtol 10 (c_str s)) [ none ↦ 0 | some r ↦ r.0 ]

-- The level at `value_str`, or'd into `val`.
abbrev pub put_level : ℕ → List ℕ → ℕ → (List ℕ → ℕ → Step ℕ) → List ℕ → Step ℕ
put_level i value_str val rest bytes =
    let s = overlay bytes value_str in rest s (u8 (bit_or val (u8 (atoi s) << i)))

-- `if (-1 == read (…)) return -1;` as a `uint8_t`
unfoldable pub with_bytes : (List ℕ → Step ℕ) → Option (List ℕ) → Step ℕ
with_bytes rest none = pure 255
with_bytes rest (some bytes) = rest bytes

module _ (os : System) where
  -- One pin: `path` is `export` or `unexport`.
  unfoldable pub export_pin : List ℕ → ℕ → Step (Unit {0})
  unfolding sys_open sys_write sys_close
  export_pin path n p =
      (do
        fd ← sys_open os path
        fail_if (is_none fd)
        r ← sys_write os (fd_of fd) (pin_text n)
        sys_close (fd_of fd)
        fail_if (is_none r))
        p

  -- The loop of `gpio_init` and of `gpio_unexp`, from the pin `i` on.
  unfoldable pub export_pins : List ℕ → ℕ → ℕ → Step (Unit {0})
  unfolding export_pin
  export_pins path zero i p = pure tt p
  export_pins path (suc left) i p =
      (export_pin path (p.pin_map i) >> export_pins path left (i + 1)) p

  unfoldable pub gpio_unexp : Step (Unit {0})
  unfolding export_pins
  gpio_unexp = export_pins (codes "/sys/class/gpio/unexport") 8 0

  -- `gpio_direction`, which closes the file only behind a `write` that succeeds.
  unfoldable pub gpio_direction : ℕ → ℕ → Step (Unit {0})
  gpio_direction pin dir p =
      (do
        fd ← sys_open os (direction_path (p.pin_map pin))
        fail_if (is_none fd)
        r ← sys_write os (fd_of fd) (if dir == 0 then codes "in" else codes "out")
        fail_if (is_none r)
        sys_close (fd_of fd))
        p

  unfoldable pub gpio_write : ℕ → ℕ → Step (Unit {0})
  gpio_write pin value p =
      (do
        r ← sys_write os (p.gpio_fds pin) (if value == 0 then codes "0" else codes "1")
        fail_if (not (wrote_one r)))
        p

  abbrev put_fd : ℕ → ℕ → Step (Unit {0})
  put_fd i fd p = (returned tt, record p { gpio_fds = update p.gpio_fds i fd })

  -- One descriptor.
  unfoldable pub open_fd : ℕ → List ℕ → Step (Unit {0})
  open_fd i path = do fd ← sys_open os path; put_fd i (fd_of fd); fail_if (is_none fd)

  -- The loop of `gpio_openfds`, from the pin `i` on.
  unfoldable pub open_fds : ℕ → ℕ → Step (Unit {0})
  unfolding open_fd
  open_fds zero i p = pure tt p
  open_fds (suc left) i p = (open_fd i (value_path (p.pin_map i)) >> open_fds left (i + 1)) p

  unfoldable pub gpio_openfds : Step (Unit {0})
  unfolding open_fds
  gpio_openfds = open_fds 8 0

  -- The loop of `gpio_closefds`.
  unfoldable pub close_fds : ℕ → ℕ → Step (Unit {0})
  close_fds zero i p = pure tt p
  close_fds (suc left) i p = (sys_close (p.gpio_fds i) >> close_fds left (i + 1)) p

  unfoldable pub gpio_closefds : Step (Unit {0})
  unfolding close_fds
  gpio_closefds = close_fds 8 0

  -- The loop of `gpio_read`, from the pin `i` on, with `value_str` and `val`.
  unfoldable pub read_pins : ℕ → ℕ → List ℕ → ℕ → Step ℕ
  unfolding with_bytes
  read_pins zero i value_str val p = pure val p
  read_pins (suc left) i value_str val p =
      (do
        r ← sys_read os (p.gpio_fds i)
        with_bytes (put_level i value_str val (read_pins left (i + 1))) r)
        p

  unfoldable pub gpio_read : Step ℕ
  unfolding read_pins
  gpio_read p = read_pins 8 0 (os.value_str p.calls) 0 p
