-- ===== src/Gpio/Setup.antt =====
-- Which pins there are, and `gpio_init` of src/pi_gpio.c.
use mikode.Prelude.{
  ℕ, ◌+◌, ◌%◌, ◌^◌, Bool, not, ◌&&◌, ◌||◌, List, [], ◌∷◌, Option, some, none, if◌then◌else◌, ltb,
  codes, length,
}
use mikode.Prelude.Chars.{strcmp, strncmp, char_at}
use mikode.Assembler.Value.{strtol}
use mikode.Gpio.Calls.{System, Entry, Step, Answer, returned, failed, and_then, fail, ◌>>◌}
use mikode.Gpio.{export_pins, gpio_openfds}

-- The macros of config.h, each whether it is 1, and for HAVE__DT_LNK whether it is not 0.
pub record Board : Type 0 where
  pub ntc_model : Bool
  pub bcm_host : Bool
  pub dt_lnk : Bool

abbrev pub chip_expander : List ℕ
chip_expander = codes "pcf8574a\n"

-- The value in the file `base`.
abbrev read_base : Option (Option (List ℕ)) → Answer ℕ
read_base none = failed 3
read_base (some none) = failed 3
read_base (some (some line)) = elim (strtol 10 line) [ none ↦ failed 4 | some r ↦ returned r.0 ]

abbrev read_label : Entry → Answer ℕ → Answer ℕ
read_label e later = elim e.label [
  | none ↦ failed 3
  | some line ↦
      if strncmp (length chip_expander) line chip_expander then read_base e.base else later
]

-- The loop over the directory; 0 if no expander is found.
unfoldable pub find_base : List Entry → Answer ℕ
unfolding strcmp
find_base [] = returned 0
find_base (e ∷ rest) =
    let later = find_base rest in
    let dots = strcmp (codes ".") e.name || strcmp (codes "..") e.name in
    if e.is_link && not dots then read_label e later else later

-- `pins[i] = i + base` for eight pins
abbrev chip_pins : ℕ → Step (Unit {0})
chip_pins base p =
    (returned tt, record p { pin_map = λ i. if ltb i 8 then (i + base) % 2 ^ 32 else p.pin_map i })

abbrev pub pi_pin : ℕ → ℕ
pi_pin i = char_at (6 ∷ 13 ∷ 19 ∷ 26 ∷ 12 ∷ 16 ∷ 20 ∷ 21 ∷ []) i

unfoldable pub get_pi_pins : Step (Unit {0})
get_pi_pins p = (returned tt, record p { pin_map = λ i. if ltb i 8 then pi_pin i else p.pin_map i })

module _ (os : System) where
  unfoldable pub get_chip_pins : Step (Unit {0})
  unfolding find_base
  get_chip_pins p = elim os.directory [
    | none ↦ (failed 2, p)
    | some entries ↦ and_then chip_pins (find_base entries, p)
  ]

  unfoldable pub set_pins : Board → Step (Unit {0})
  unfolding get_chip_pins get_pi_pins
  set_pins board =
      if board.ntc_model
      then get_chip_pins
      else if board.bcm_host && board.dt_lnk
      then get_pi_pins
      else fail 1

  unfoldable pub gpio_init : Board → Step (Unit {0})
  unfolding set_pins export_pins gpio_openfds
  gpio_init board =
      set_pins board >> export_pins os (codes "/sys/class/gpio/export") 8 0 >> gpio_openfds os
