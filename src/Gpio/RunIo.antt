-- ===== src/Gpio/RunIo.antt =====
-- The part of `run_io` in src/display.c that is built with the GPIO pins, and `run_io` with it.
pub mod Turn
pub mod Laws
pub mod Run
use mikode.Prelude.{
  ℕ, zero, suc, ◌+◌, ◌-◌, ◌/◌, ◌^◌, Bool, true, false, ◌&&◌, Option, some, none, if◌then◌else◌,
  ◌==◌, ◌<<◌, truth, bit_and, bit_xor,
}
use mathlib.Core.Option
use mikode.Machine.{Machine, update, set_prog}
use mikode.Display.{Window, run_io}
use mikode.Gpio.Calls.{System, Port, Step, Answer, returned, failed, pure, ◌>>◌}
use mikode.Gpio.{gpio_write, gpio_direction, gpio_read}

-- The fields of `_rom` for the pins, with the state of src/pi_gpio.c.
pub record Pins : Type 0 where
  pub gpio_rom : Bool
  pub old_rom : ℕ → ℕ
  pub port : Port

-- `val & (1 << i)`
abbrev pub has_bit : ℕ → ℕ → Bool
has_bit val i = truth (bit_and val (1 << i))

-- `(val >> i) & 0x01`
abbrev pub bit_at : ℕ → ℕ → ℕ
bit_at val i = bit_and (val / 2 ^ i) 0x01

abbrev pub put_old : ℕ → ℕ → (ℕ → ℕ) → ℕ → ℕ
put_old cell new old = if new == old cell then old else update old cell new

module _ (os : System) where
  -- The loops over `i`, from the given one on.
  unfoldable pub write_changed : ℕ → ℕ → ℕ → ℕ → ℕ → Step (Unit {0})
  write_changed zero i tst dir new p = pure tt p
  write_changed (suc left) i tst dir new p =
      let rest = write_changed left (i + 1) tst dir new in
      (if has_bit tst i && has_bit dir i then gpio_write os i (bit_at new i) >> rest else rest) p

  unfoldable pub direct_changed : ℕ → ℕ → ℕ → ℕ → Step (Unit {0})
  direct_changed zero i tst new p = pure tt p
  direct_changed (suc left) i tst new p =
      let rest = direct_changed left (i + 1) tst new in
      (if has_bit tst i then gpio_direction os i (bit_at new i) >> rest else rest) p

  -- gpio_out, and gpio_dir
  unfoldable pub put_out : ℕ → ℕ → ℕ → Step (Unit {0})
  unfolding write_changed
  put_out dir new old = if new == old then pure tt else write_changed 8 0 (bit_xor new old) dir new

  unfoldable pub put_dir : ℕ → ℕ → Step (Unit {0})
  unfolding direct_changed
  put_dir new old = if new == old then pure tt else direct_changed 8 0 (bit_xor new old) new

  -- What `run_io` does with the result of `gpio_read`, of `put_dir` and of `put_out`: whether it
  -- returns -1, and what it leaves.
  abbrev pub after_read : Pins → Machine → Answer ℕ × Port → Bool × Pins × Machine
  after_read x m (failed code, p) = (true, record x { port = p }, m)
  after_read x m (returned ret, p) =
      if ret == 2 ^ 32 - 1
      then (true, record x { port = p }, m)
      else (false, record x { port = p }, set_prog 0xe102 ret m)

  unfoldable pub after_dir : Pins → Machine → Answer (Unit {0}) × Port → Bool × Pins × Machine
  after_dir x m (failed code, p) = (true, record x { port = p }, m)
  after_dir x m (returned u, p) =
      after_read (record x { port = p; old_rom = put_old 1 (m.prog 0xe101) x.old_rom }) m
        (gpio_read os p)

  unfoldable pub after_out : Pins → Machine → Answer (Unit {0}) × Port → Bool × Pins × Machine
  unfolding after_dir
  after_out x m (failed code, p) = (true, record x { port = p }, m)
  after_out x m (returned u, p) =
      let old = put_old 0 (m.prog 0xe100) x.old_rom in
      after_dir (record x { old_rom = old }) m (put_dir (m.prog 0xe101) (old 1) p)

  unfoldable pub gpio_io : Pins → Machine → Bool × Pins × Machine
  unfolding after_out
  gpio_io x m =
      if x.gpio_rom
      then after_out x m (put_out (m.prog 0xe101) (m.prog 0xe100) (x.old_rom 0) x.port)
      else (false, x, m)

  -- What is left of `run_io` behind the part of Display.antt.
  abbrev pub with_pins : Pins → Bool × Window × Machine → Bool × (Window × Pins) × Machine
  with_pins x (true, w, m) = (true, (w, x), m)
  with_pins x (false, w, m) = let (err, x', m') = gpio_io x m in (err, (w, x'), m')

  unfoldable pub run_io_gpio :
      ℕ → Window × Pins → Machine → Option (Bool × (Window × Pins) × Machine)
  unfolding gpio_io
  run_io_gpio op (w, x) m = Option.map (with_pins x) (run_io op w m)
