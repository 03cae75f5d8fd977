-- ===== src/Execute.antt =====
-- The loop of `execute` in src/execute.c. `run_io` (src/display.c) is a parameter here: it takes
-- the opcode, the windows `w` and the machine, and says whether its `int` is negative; it gives
-- `none` if it waits for a key that never comes. Display.antt has the one of the source.
pub mod Reach
pub mod Stops
use mikode.Prelude.{ℕ, zero, suc, Bool, true, false, Option, some, none, ltb, if◌then◌else◌}
use mikode.Machine.{Machine, Reply}
use mikode.Machine.Memory.{word_at}
use mikode.Decode.{decode}
use mikode.Dispatch.{dispatch}

-- Why the loop is left: an unknown opcode, a handler's `err > 0`, `run_io`'s `err < 0`, or that
-- `run_io` never returns.
pub data Exit : Type 0 where
  unrecognised stopped io_failed waits : Exit

pub data Round (W : Type 0) : Type 0 where
  go_on : W → Machine → Round W
  leave : Exit → W → Machine → Round W

pub data Outcome (W : Type 0) : Type 0 where
  finished : Exit → W → Machine → Outcome W
  out_of_fuel : Outcome W

-- What follows a turn, with `again` for the rest of the loop.
unfoldable pub after_round : {W : Type 0} → (W → Machine → Outcome W) → Round W → Outcome W
after_round again (go_on w m) = again w m
after_round again (leave e w m) = finished e w m

module _ {W : Type 0} (run_io : ℕ → W → Machine → Option (Bool × W × Machine)) where
  unfoldable pub after_io : W → Machine → Option (Bool × W × Machine) → Round W
  after_io w m none = leave waits w m
  after_io w m (some (true, w', m')) = leave io_failed w' m'
  after_io w m (some (false, w', m')) = go_on w' m'

  unfoldable pub after_handler : ℕ → W → Machine → Option Reply → Round W
  unfolding after_io
  after_handler op w m none = leave unrecognised w m
  after_handler op w m (some (err, m')) =
      if ltb 0 err then leave stopped w m' else after_io w m' (run_io op w m')

  -- One turn of the loop.
  unfoldable pub round : W → Machine → Round W
  unfolding after_handler
  round w m = let op = word_at m m.ip in after_handler op w m (dispatch (decode op) op m)

  unfoldable pub loop : ℕ → W → Machine → Outcome W
  unfolding after_round
  loop zero w m = out_of_fuel
  loop (suc fuel) w m = after_round (loop fuel) (round w m)

  -- The whole function, which sets the stack pointer first.
  unfoldable pub execute : ℕ → W → Machine → Outcome W
  unfolding loop
  execute fuel w m = loop fuel w (record m { sp = 0xffff })
