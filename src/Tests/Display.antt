-- ===== src/Tests/Display.antt =====
-- The statements about src/display.c at a window of two cells.
use mikode.Prelude.{◌≡◌, refl, ◌+◌, ◌==◌, if◌then◌else◌, arith, false, [], ◌∷◌}
use mikode.Prelude.Returns.{Returns}
use mikode.Display.{Window, run_io}
use mikode.Display.Delay.{Delayed, loop-Delayed}
use mikode.Decode.{Instr, decode}
use mikode.Machine.{Machine}
use mikode.Machine.Memory.{word_at}
use mikode.Handlers.Fields.{field_bit, field_offset}
use mikode.Handlers.Flow.{branch_to}
use mikode.Display.Laws.{Shown}
use mikode.Display.Returns.{run_io-Returns}
use mikode.Tests.{program_machine}

-- F4, a key that ends its wait, and one for the stepper.
abbrev pub small_window : Window
small_window = record {
  old_win = λ i. 0;
  maxx = 2;
  maxy = 1;
  step = false;
  show_reg = false;
  drawn = [];
  keys = 268 ∷ b'a' ∷ b'b' ∷ [];
  rand = λ i. 1804289383;
  calls = 0;
}

-- A letter in the second cell.
abbrev screen_machine : Machine
screen_machine = record program_machine { prog = λ a. if a == 0xc001 then b'h' else 0 }

run_io-Returns_example :
    Returns (Shown small_window screen_machine) (run_io 0 small_window screen_machine)
run_io-Returns_example = run_io-Returns 0 small_window screen_machine (omega arith)

-- A count of three at address 0: `Dec r1` and a branch back to it.
abbrev delay_machine : Machine
delay_machine = record program_machine {
  ip = 0;
  reg = λ i. 3;
  prog = λ a. if a == 0 then 0x1a else if a == 1 then 0x94 else if a == 2 then 0xf1 else 0xf7;
}

delay_opcodes :
    (decode 0x941a ≡ Instr.dec)
    × (decode 0xf7f1 ≡ Instr.branchc)
    × (field_bit 0xf7f1 ≡ 1)
    × (branch_to (field_offset 0xf7f1) (0 + 2) ≡ 0)
unfolding decode field_bit field_offset branch_to
delay_opcodes = (refl, refl, refl, refl)

delay_start : (word_at delay_machine 0 ≡ 0x941a) × (word_at delay_machine (0 + 2) ≡ 0xf7f1)
unfolding word_at
delay_start = (refl, refl)

loop-Delayed_example : Delayed 0 0x941a (record small_window { keys = [] }) delay_machine 6
loop-Delayed_example =
    loop-Delayed 0 0x941a 0xf7f1 (omega arith) delay_opcodes.0 delay_opcodes.1 delay_opcodes.2
      delay_opcodes.3 (record small_window { keys = [] }) delay_machine
      (record { no_keys = refl; no_step = refl }) refl delay_start.0 delay_start.1 (omega arith)
