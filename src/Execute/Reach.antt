-- ===== src/Execute/Reach.antt =====
-- The machines that `execute` passes through, as a relation, and what holds in all of them.
use mikode.Prelude.{ℕ, zero, suc, ◌+◌, ◌≡◌, refl, arith, Bool, true, false, some, none, ltb}
use mathlib.Core.Path.{subst}
use native.Mathlib.Nat.{suc-add}
use mikode.Prelude.{Option, inl, inr, Bool-cases}
use mikode.Prelude.Holds.{Holds, fails, gives}
use mikode.Machine.{Machine, Reply}
use mikode.Machine.Memory.{word_at}
use mikode.Machine.Valid.{IsValid, sp-IsValid}
use mikode.Decode.{decode}
use mikode.Dispatch.Valid.{AllReplies, dispatch-IsValid}
use mikode.Execute.{Round, go_on, leave, Outcome, finished, out_of_fuel}
use mikode.Execute.{Exit, after_io, after_handler, after_round, round, loop, execute}

module _ {W : Type 0} (run_io : ℕ → W → Machine → Option (Bool × W × Machine)) where
  -- `run_io` keeps the ranges of the fields.
  abbrev pub IoKeepsValid : Type 0
  IoKeepsValid =
      (op : ℕ) (w : W) (m : Machine)
      → IsValid m
      → Holds (λ (r : Bool × W × Machine). IsValid r.2) (run_io op w m)

  -- `Reach w m w' m'`: some number of turns leads from the first pair to the second.
  pub data Reach (w : W) (m : Machine) : W → Machine → Type 0 where
    here : Reach w m w m
    turn :
        {v v' : W} {n n' : Machine}
        → Reach w m v n
        → round run_io v n ≡ go_on v' n'
        → Reach w m v' n'

  -- A predicate on the machine that a turn leaves, however it ends.
  abbrev pub AfterRound : (Machine → Type 0) → Round W → Type 0
  AfterRound P (go_on w m) = P m
  AfterRound P (leave e w m) = P m

  abbrev pub AtEnd : (Machine → Type 0) → Outcome W → Type 0
  AtEnd P (finished e w m) = P m
  AtEnd P out_of_fuel = Unit

  module _ (io : IoKeepsValid) where
    after_io-IsValid :
        (w : W) (m : Machine) {r : Option (Bool × W × Machine)}
        → IsValid m
        → Holds (λ (q : Bool × W × Machine). IsValid q.2) r
        → AfterRound IsValid (after_io run_io w m r)
    unfolding after_io
    after_io-IsValid w m valid fails = valid
    after_io-IsValid w m valid (gives {a} h) = after_reply a h
      where
        after_reply :
            (q : Bool × W × Machine)
            → IsValid q.2
            → AfterRound IsValid (after_io run_io w m (some q))
        after_reply (true, w', m') h = h
        after_reply (false, w', m') h = h

    after_handler-IsValid :
        (op : ℕ) (w : W) (m : Machine) (reply : Option Reply)
        → IsValid m
        → AllReplies IsValid reply
        → AfterRound IsValid (after_handler run_io op w m reply)
    unfolding after_handler
    after_handler-IsValid op w m none valid h = valid
    after_handler-IsValid op w m (some (err, m')) valid h = elim (Bool-cases (ltb 0 err)) [
      | inl e ↦ rw e h
      | inr e ↦ rw e (after_io-IsValid w m' h (io op w m' h))
    ]

    pub round-IsValid : (w : W) (m : Machine) → IsValid m → AfterRound IsValid (round run_io w m)
    unfolding round
    round-IsValid w m valid =
        let op = word_at m m.ip in
        after_handler-IsValid op w m _ valid (dispatch-IsValid (decode op) op valid)

    -- Every machine that the loop passes through keeps the ranges of its fields, if `run_io` does.
    pub Reach-IsValid :
        {w : W} {m : Machine} {w' : W} {m' : Machine} → IsValid m → Reach w m w' m' → IsValid m'
    Reach-IsValid valid here = valid
    Reach-IsValid valid (turn {v = v} {n = n} r e) =
        subst (AfterRound IsValid) e (round-IsValid v n (Reach-IsValid valid r))

    after_round-AtEnd :
        (again : W → Machine → Outcome W)
        → ((w : W) (m : Machine) → IsValid m → AtEnd IsValid (again w m))
        → (r : Round W) → AfterRound IsValid r
        → AtEnd IsValid (after_round again r)
    unfolding after_round
    after_round-AtEnd again keep (go_on w m) h = keep w m h
    after_round-AtEnd again keep (leave e w m) h = h

    loop-IsValid :
        (fuel : ℕ) (w : W) (m : Machine) → IsValid m → AtEnd IsValid (loop run_io fuel w m)
    unfolding loop
    loop-IsValid zero w m valid = tt
    loop-IsValid (suc fuel) w m valid =
        after_round-AtEnd (loop run_io fuel) (loop-IsValid fuel) (round run_io w m)
          (round-IsValid w m valid)

    -- However many turns `execute` is given, the machine it returns keeps the ranges.
    pub execute-IsValid :
        (fuel : ℕ) (w : W) (m : Machine) → IsValid m → AtEnd IsValid (execute run_io fuel w m)
    unfolding execute
    execute-IsValid fuel w m valid = loop-IsValid fuel w _ (sp-IsValid valid 0xffff (omega arith))

  after_round_mono :
      (again more : W → Machine → Outcome W) (e : Exit) (w' : W) (m' : Machine)
      → ((w : W) (m : Machine) → again w m ≡ finished e w' m' → more w m ≡ finished e w' m')
      → (r : Round W) → after_round again r ≡ finished e w' m'
      → after_round more r ≡ finished e w' m'
  unfolding after_round
  after_round_mono again more e w' m' keep (go_on w m) h = keep w m h
  after_round_mono again more e w' m' keep (leave x w m) h = h

  -- A finished run stays the same run when more fuel is given.
  pub loop-more_fuel :
      (fuel extra : ℕ) (w : W) (m : Machine) (e : Exit) (w' : W) (m' : Machine)
      → loop run_io fuel w m ≡ finished e w' m'
      → loop run_io (fuel + extra) w m ≡ finished e w' m'
  unfolding loop
  loop-more_fuel zero extra w m e w' m' h = cc
  loop-more_fuel (suc fuel) extra w m e w' m' h = rw suc-add (
      after_round_mono (loop run_io fuel) (loop run_io (fuel + extra)) e w' m'
        (λ v n. loop-more_fuel fuel extra v n e w' m') (round run_io w m) h)

  -- The turn by which a finished run left the loop, and how it was reached.
  pub record LastTurn (w : W) (m : Machine) (e : Exit) (w' : W) (m' : Machine) : Type 0 where
    pub windows : W
    pub machine : Machine
    pub reached : Reach w m windows machine
    pub left : round run_io windows machine ≡ leave e w' m'

  turn_first :
      {w : W} {m : Machine} {v : W} {n : Machine} {v' : W} {n' : Machine}
      → round run_io w m ≡ go_on v n
      → Reach v n v' n'
      → Reach w m v' n'
  turn_first e here = turn here e
  turn_first e (turn r e') = turn (turn_first e r) e'

  last_of_round :
      (again : W → Machine → Outcome W) (e : Exit) (w' : W) (m' : Machine)
      → ((v : W) (n : Machine) → again v n ≡ finished e w' m' → LastTurn v n e w' m')
      → (w : W) (m : Machine) (r : Round W) → round run_io w m ≡ r
      → after_round again r ≡ finished e w' m'
      → LastTurn w m e w' m'
  unfolding after_round
  last_of_round again e w' m' later w m (go_on v n) q h =
      let rest = later v n h in
      record {
        windows = rest.windows;
        machine = rest.machine;
        reached = turn_first q rest.reached;
        left = rest.left;
      }
  last_of_round again e w' m' later w m (leave x v n) q h = record {
    windows = w;
    machine = m;
    reached = here;
    left = cc;
  }

  -- A finished run got where it is by turns of the loop, and its last turn left the loop.
  pub loop-LastTurn :
      (fuel : ℕ) (w : W) (m : Machine) (e : Exit) (w' : W) (m' : Machine)
      → loop run_io fuel w m ≡ finished e w' m'
      → LastTurn w m e w' m'
  unfolding loop
  loop-LastTurn zero w m e w' m' h = absurd (cc)
  loop-LastTurn (suc fuel) w m e w' m' h =
      last_of_round (loop run_io fuel) e w' m' (λ v n. loop-LastTurn fuel v n e w' m') w m
        (round run_io w m) refl h
