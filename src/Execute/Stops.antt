-- ===== src/Execute/Stops.antt =====
-- Why a run of `execute` in src/execute.c stopped.
use mikode.Prelude.{
  ℕ, ◌<◌, ◌≡◌, ap, sym, ◌∙◌, arith, ◌⊎◌, inl, inr, Bool, true, false, Option, some, none, ltb,
  if◌then◌else◌, Bool-cases,
}
use mathlib.Core.Path.{subst}
use mikode.Machine.{Machine, Reply}
use mikode.Machine.Memory.{word_at}
use mikode.Decode.{Instr, decode}
use mikode.Dispatch.{dispatch}
use mikode.Dispatch.Stops.{error_of, ends_pair, dispatch-error, error_code-cause}
use mikode.Execute.{Exit, finished, leave, after_handler, after_io, round, loop}
use mikode.Execute.Reach.{LastTurn, loop-LastTurn}

module _ {W : Type 0} (run_io : ℕ → W → Machine → Option (Bool × W × Machine)) where
  -- The opcode at the instruction pointer.
  abbrev pub current : Machine → ℕ
  current m = word_at m m.ip

  io_other :
      (w : W) (m : Machine) (r : Option (Bool × W × Machine)) (w' : W) (m' : Machine)
      → after_io run_io w m r ≡ leave Exit.stopped w' m'
      → ⊥
  unfolding after_io
  io_other w m none w' m' h = cc
  io_other w m (some (true, v, n)) w' m' h = cc
  io_other w m (some (false, v, n)) w' m' h = cc

  stopped_error :
      (op : ℕ) (w : W) (m : Machine) (reply : Option Reply) (w' : W) (m' : Machine)
      → after_handler run_io op w m reply ≡ leave Exit.stopped w' m'
      → 0 < error_of reply
  unfolding after_handler
  stopped_error op w m none w' m' h = absurd (cc)
  stopped_error op w m (some (e, n)) w' m' h = elim (Bool-cases (ltb 0 e)) [
    | inl p ↦ ground arith
    | inr p ↦ absurd (io_other w n (run_io op w n) w' m' (cut e p n h))
  ]
    where
      cut :
          (e : ℕ)
          → ltb 0 e ≡ false
          → (n : Machine)
          → (if ltb 0 e then leave Exit.stopped w n else after_io run_io w n (run_io op w n))
            ≡ leave Exit.stopped w' m'
          → after_io run_io w n (run_io op w n) ≡ leave Exit.stopped w' m'
      cut e p n h =
          ap
            (λ (b : Bool).
              if b then leave Exit.stopped w n else after_io run_io w n (run_io op w n))
            (sym p)
          ∙ h

  -- A run that stopped on an error did so at a machine that it reached, whose opcode is the break
  -- or a `movw` with register 15, and ended in the machine that the turn there left.
  pub stopped-cause :
      (fuel : ℕ) (w : W) (m : Machine) (w' : W) (m' : Machine)
      → loop run_io fuel w m ≡ finished Exit.stopped w' m'
      → (last : LastTurn run_io w m Exit.stopped w' m') × ((decode (current last.machine)
            ≡ Instr.abrk)
          ⊎ ((decode (current last.machine) ≡ Instr.movw)
              × (ends_pair (current last.machine) ≡ true)))
  unfolding round
  stopped-cause fuel w m w' m' h =
      let last = loop-LastTurn run_io fuel w m Exit.stopped w' m' h in
      let n = last.machine in
      let op = current n in
      let failed = stopped_error op last.windows n (dispatch (decode op) op n) w' m' last.left in
      (
        last,
        error_code-cause (decode op) op
            (subst (λ (e : ℕ). 0 < e) (dispatch-error (decode op) op n) failed),
      )
