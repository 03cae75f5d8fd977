-- ===== src/Display/Run.antt =====
-- `execute` of src/execute.c with the `run_io` of src/display.c.
use mikode.Prelude.{ℕ}
use mikode.Machine.{Machine}
use mikode.Machine.Valid.{IsValid}
use mikode.Execute.{execute}
use mikode.Execute.Reach.{AtEnd, execute-IsValid}
use mikode.Display.{Window, run_io}
use mikode.Display.Laws.{run_io-IsValid}

-- Whatever is in memory and whatever keys come, `execute` with the program's own `run_io` leaves
-- every field of the machine in the range of its C type, however many turns it is given.
pub execute-run_io-IsValid :
    (fuel : ℕ) (w : Window) (m : Machine)
    → IsValid m
    → AtEnd run_io IsValid (execute run_io fuel w m)
execute-run_io-IsValid = execute-IsValid run_io run_io-IsValid
