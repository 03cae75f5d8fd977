-- ===== src/Program/Run.antt =====
-- src/run.c: an object file is loaded and executed. The printing at the end is left out.
use mikode.Prelude.{
  ℕ, Bool, true, false, not, ◌&&◌, List, [], Option, some, none, if◌then◌else◌, ◌==◌,
}
use mikode.Machine.{Machine}
use mikode.Image.{File, Loaded, exits, returns_0, load}
use mikode.Execute.{Exit, Outcome, finished, out_of_fuel, execute}
use mikode.Display.{Window}
use mikode.Gpio.Calls.{System, Port, Answer, returned, failed}
use mikode.Gpio.{gpio_unexp, gpio_closefds}
use mikode.Gpio.Setup.{Board, gpio_init}
use mikode.Gpio.RunIo.{Pins, run_io_gpio}
use mikode.Program.{Disk}

-- What the program finds: whether it is built with the pins, its user, the static arrays of
-- src/pi_gpio.c, the keys and random numbers to come, and what uninitialised memory holds:
-- `old_win`, `old_rom`, whether `gpio_rom` is 1, and the memory that `load` allocates.
pub record Host : Type 0 where
  pub built : Bool
  pub board : Board
  pub os : System
  pub port : Port
  pub uid : ℕ
  pub keys : List ℕ
  pub rand : ℕ → ℕ
  pub old_win : ℕ → ℕ
  pub old_rom : ℕ → ℕ
  pub gpio_rom : Bool
  pub fresh : ℕ → ℕ

-- `return -1`, or the end of the loop with what `run` leaves; `none` if the loop has not ended or
-- waits for a key for ever.
pub data Ran : Type 0 where
  refused : Ran
  unfinished : Ran
  ran : Exit → Window → Pins → Machine → Ran

-- `run_state state = { 0 }`, with the memory
abbrev pub start : (ℕ → ℕ) → Machine
start prog = record { ip = 0; sp = 0; sreg = 0; reg = λ i. 0; prog = prog }

module _ (h : Host) where
  abbrev pub window : Window
  window = record {
    old_win = h.old_win;
    maxx = 0x80;
    maxy = if h.built && h.board.ntc_model then 0x13 else 0x28;
    step = false;
    show_reg = false;
    drawn = [];
    keys = h.keys;
    rand = h.rand;
    calls = 0;
  }

  -- The pins are given back, whatever this returns.
  abbrev give_back : Pins → Pins
  give_back x =
      if h.built && x.gpio_rom
      then record x { port = (gpio_closefds h.os (gpio_unexp h.os x.port).1).1 }
      else x

  unfoldable pub after_execute : Outcome (Window × Pins) → Ran
  unfolding gpio_unexp gpio_closefds
  after_execute out_of_fuel = unfinished
  after_execute (finished Exit.waits (w, x) m) = unfinished
  after_execute (finished e (w, x) m) = ran e w (give_back x) m

  -- From `initscr` on.
  unfoldable pub run_with : ℕ → (ℕ → ℕ) → Pins → Ran
  unfolding after_execute run_io_gpio
  run_with fuel prog x = after_execute (execute (run_io_gpio h.os) fuel (window, x) (start prog))

  -- Behind `gpio_init`, of whose results only -1 is looked at.
  abbrev after_init : ℕ → (ℕ → ℕ) → Answer (Unit {0}) × Port → Ran
  after_init fuel prog (failed code, p) =
      if code == 1
      then refused
      else run_with fuel prog (record { gpio_rom = true; old_rom = h.old_rom; port = p })
  after_init fuel prog (returned u, p) =
      run_with fuel prog (record { gpio_rom = true; old_rom = h.old_rom; port = p })

  unfoldable pub run : ℕ → (ℕ → ℕ) → ℕ → Ran
  unfolding run_with gpio_init
  run fuel prog usage_flag =
      if h.built && usage_flag == 3
      then (if not (h.uid == 0)
          then refused
          else after_init fuel prog (gpio_init h.os h.board h.port))
      else run_with fuel prog
          (record { gpio_rom = h.built && h.gpio_rom; old_rom = h.old_rom; port = h.port })

  -- `run_main`: `none` is the `exit` of `load`.
  abbrev pub run_loaded : ℕ → ℕ → Loaded → Option Ran
  run_loaded fuel usage_flag exits = none
  run_loaded fuel usage_flag (returns_0 prog) = some (run fuel prog usage_flag)

  abbrev pub run_opened : ℕ → ℕ → Option File → Option Ran
  run_opened fuel usage_flag none = some refused
  run_opened fuel usage_flag (some f) = run_loaded fuel usage_flag (load h.fresh f)

  unfoldable pub run_main : ℕ → List ℕ → ℕ → Disk → Option Ran
  unfolding run load
  run_main fuel exec usage_flag disk = run_opened fuel usage_flag (disk.file exec)
