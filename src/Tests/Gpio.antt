-- ===== src/Tests/Gpio.antt =====
-- The statements about src/pi_gpio.c at a system that grants what it is asked.
use mikode.Prelude.{
  ◌≡◌, refl, ap, ◌∙◌, ℕ, arith, true, false, [], ◌∷◌, some, none, codes, if◌then◌else◌, ◌==◌, ◌+◌,
}
use mikode.Gpio.Calls.{System, Port, returned}
use mikode.Gpio.{gpio_unexp, gpio_read, pin_text}
use mikode.Gpio.Setup.{Board, gpio_init}
use mikode.Gpio.Read.{weigh, after_reads, after_reads-gpio_fds, gpio_read-levels}
use mikode.Gpio.Exports.{from, Sessions, gpio_unexp-Sessions, Inits, gpio_init-Inits}
use mikode.Gpio.RunIo.{Pins, gpio_io}
use mikode.Gpio.RunIo.Turn.{Turn}
use mikode.Gpio.RunIo.Run.{gpio_io-Turn}
use mikode.Tests.{program_machine}

-- Each file has the descriptor 9, takes one byte, and reads as a 1 on pin 3 only.
abbrev pub granting : System
granting = record {
  opened = λ h path. some 9;
  written = λ h fd bytes. some 1;
  bytes_read = λ h fd. some ((if fd == 3 then b'1' else b'0') ∷ b'\n' ∷ []);
  value_str = λ h. 0 ∷ 0 ∷ 0 ∷ [];
  directory = none;
}

abbrev pub small_port : Port
small_port = record { pin_map = λ i. i + 408; gpio_fds = λ i. i; calls = [] }

abbrev small_pins : Pins
small_pins = record { gpio_rom = true; old_rom = λ i. 0; port = small_port }

abbrev pub pi_board : Board
pi_board = record { ntc_model = false; bcm_host = true; dt_lnk = true }

gpio_io-Turn_example :
    Turn granting small_pins program_machine (gpio_io granting small_pins program_machine)
gpio_io-Turn_example = gpio_io-Turn granting small_pins program_machine refl

gpio_read-levels_example :
    gpio_read granting small_port
    ≡ (returned (weigh (λ j. if j == 3 then 1 else 0) 8 0), after_reads granting 8 0 small_port)
gpio_read-levels_example =
    gpio_read-levels granting (λ j. if j == 3 then 1 else 0) 0 0 0 small_port refl
      (λ j. ground arith)
      λ j lt.
        ap (λ (g : ℕ → ℕ). some ((if g j == 3 then b'1' else b'0') ∷ b'\n' ∷ []))
          (after_reads-gpio_fds granting j 0 small_port)
        ∙ ap (λ c. some (c ∷ b'\n' ∷ [])) {x = if j == 3 then b'1' else b'0'}
            {y = b'0' + (if j == 3 then 1 else 0)} (ground arith)

gpio_unexp-Sessions_example :
    Sessions granting
      (codes "/sys/class/gpio/unexport")
      (from (λ i. pin_text (i + 408)) 8 0)
      small_port
      (gpio_unexp granting small_port)
gpio_unexp-Sessions_example = gpio_unexp-Sessions granting small_port

gpio_init-Inits_example :
    Inits granting pi_board small_port (gpio_init granting pi_board small_port)
gpio_init-Inits_example = gpio_init-Inits granting pi_board small_port
