-- ===== src/Gpio/RunIo/Turn.antt =====
-- What the pins' part of `run_io` in src/display.c is to do, in terms of the digits of the cells: a
-- list of pins, and runs through it in order that end where a call fails.
use mikode.Prelude.{
  ℕ, zero, suc, ◌+◌, ◌≡◌, ◌≢◌, Bool, true, false, not, ◌&&◌, List, [], ◌∷◌, Option, some, none,
  if◌then◌else◌, ◌==◌, codes,
}
use mikode.Prelude.Bits.{bit}
use mikode.Machine.{Machine, update, set_prog}
use mikode.Gpio.Calls.{System, Port, Answer, opens, writes, closes, returned, failed, log}
use mikode.Gpio.{direction_path, gpio_read}
use mikode.Gpio.RunIo.{Pins}

-- The pins from `i` on, so many, that pass a test.
unfoldable pub pins_with : (ℕ → Bool) → ℕ → ℕ → List ℕ
pins_with p zero i = []
pins_with p (suc left) i = let rest = pins_with p left (i + 1) in if p i then i ∷ rest else rest

abbrev pub differs : ℕ → ℕ → ℕ → Bool
differs new old i = not (bit i new == bit i old)

abbrev pub to_write : ℕ → ℕ → ℕ → List ℕ
to_write dir new old = pins_with (λ i. differs new old i && bit i dir == 1) 8 0

abbrev pub to_direct : ℕ → ℕ → List ℕ
to_direct new old = pins_with (differs new old) 8 0

abbrev pub level_text : ℕ → List ℕ
level_text v = if v == 0 then codes "0" else codes "1"

abbrev pub direction_text : ℕ → List ℕ
direction_text v = if v == 0 then codes "in" else codes "out"

module _ (os : System) (new : ℕ) where
  -- The levels of the pins are written in order, until one is not taken.
  pub data Writes : List ℕ → Port → Answer (Unit {0}) × Port → Type 0 where
    all_written : {p : Port} → Writes [] p (returned tt, p)
    written :
        {i : ℕ} {pins : List ℕ} {p : Port} {r : Answer (Unit {0}) × Port}
        → os.written p.calls (p.gpio_fds i) (level_text (bit i new)) ≡ some 1
        → Writes pins (log (writes (p.gpio_fds i) (level_text (bit i new))) p) r
        → Writes (i ∷ pins) p r
    not_taken :
        {i : ℕ} {pins : List ℕ} {p : Port}
        → os.written p.calls (p.gpio_fds i) (level_text (bit i new)) ≢ some 1
        → Writes (i ∷ pins) p (failed 1, log (writes (p.gpio_fds i) (level_text (bit i new))) p)

  -- What is called for the direction of a pin up to its `write`.
  abbrev pub to_direction : ℕ → ℕ → Port → Port
  to_direction i fd p =
      log (writes fd (direction_text (bit i new))) (log (opens (direction_path (p.pin_map i))) p)

  abbrev pub takes : ℕ → ℕ → Port → Option ℕ
  takes i fd p =
      os.written (log (opens (direction_path (p.pin_map i))) p).calls fd
        (direction_text (bit i new))

  -- The same for the directions, each by a file of its own, which stays open if it takes nothing.
  pub data Directs : List ℕ → Port → Answer (Unit {0}) × Port → Type 0 where
    all_directed : {p : Port} → Directs [] p (returned tt, p)
    directed :
        {i fd : ℕ} {pins : List ℕ} {p : Port} {r : Answer (Unit {0}) × Port}
        → os.opened p.calls (direction_path (p.pin_map i)) ≡ some fd
        → takes i fd p ≢ none
        → Directs pins (log (closes fd) (to_direction i fd p)) r
        → Directs (i ∷ pins) p r
    not_opened :
        {i : ℕ} {pins : List ℕ} {p : Port}
        → os.opened p.calls (direction_path (p.pin_map i)) ≡ none
        → Directs (i ∷ pins) p (failed 1, log (opens (direction_path (p.pin_map i))) p)
    not_directed :
        {i fd : ℕ} {pins : List ℕ} {p : Port}
        → os.opened p.calls (direction_path (p.pin_map i)) ≡ some fd
        → takes i fd p ≡ none
        → Directs (i ∷ pins) p (failed 1, to_direction i fd p)

-- One call: the levels that changed on output pins, then the directions that changed, then the
-- input. A pin that fails ends it, and then `old_rom` keeps what it had of that cell.
pub data Turn (os : System) (x : Pins) (m : Machine) : Bool × Pins × Machine → Type 0 where
  out_failed :
      {code : ℕ} {p : Port}
      → Writes os
          (m.prog 0xe100)
          (to_write (m.prog 0xe101) (m.prog 0xe100) (x.old_rom 0))
          x.port
          (failed code, p)
      → Turn os x m (true, record x { port = p }, m)
  dir_failed :
      {code : ℕ} {p q : Port} {old : ℕ → ℕ}
      → Writes os
          (m.prog 0xe100)
          (to_write (m.prog 0xe101) (m.prog 0xe100) (x.old_rom 0))
          x.port
          (returned tt, p)
      → Directs os (m.prog 0xe101) (to_direct (m.prog 0xe101) (x.old_rom 1)) p (failed code, q)
      → ((c : ℕ) → old c ≡ update x.old_rom 0 (m.prog 0xe100) c)
      → Turn os x m (true, record x { port = q; old_rom = old }, m)
  turned :
      {p q r : Port} {old : ℕ → ℕ} {input : ℕ}
      → Writes os
          (m.prog 0xe100)
          (to_write (m.prog 0xe101) (m.prog 0xe100) (x.old_rom 0))
          x.port
          (returned tt, p)
      → Directs os (m.prog 0xe101) (to_direct (m.prog 0xe101) (x.old_rom 1)) p (returned tt, q)
      → gpio_read os q ≡ (returned input, r)
      → ((c : ℕ) → old c ≡ update (update x.old_rom 0 (m.prog 0xe100)) 1 (m.prog 0xe101) c)
      → Turn os x m (false, record x { port = r; old_rom = old }, set_prog 0xe102 input m)
