-- ===== src/Display/Delay/Turns.antt =====
-- Turns of the loop of `execute` while no key comes, through `dec` and a branch.
use mikode.Prelude.{
  ℕ, zero, suc, ◌+◌, ◌*◌, ◌%◌, ◌≤◌, ◌≡◌, refl, sym, ap, arith, Bool, true, false, [], Option, some,
  if◌then◌else◌, ◌==◌, u16, sub8, bit_or, ◌<<◌,
}
use mathlib.Core.Path.{subst}
use mikode.Prelude.Bits.{bit}
use mikode.Prelude.Chars.{◌>>=◌}
use mikode.Machine.{Machine, update, set_reg, set_flag, flag_v}
use mikode.Machine.Flags.{digit, Status, put_flag-lt}
use mikode.Machine.Status.{check_zsnf, sign_flag}
use mikode.Machine.Status.Laws.{status-check_zsnf}
use mikode.Machine.Memory.{word_at}
use mikode.Decode.{Instr, decode}
use mikode.Dispatch.{dispatch}
use mikode.Handlers.Fields.{field_d}
use mikode.Handlers.Sub.{dec}
use mikode.Handlers.Flow.{branch_if, branchc}
use mikode.Execute.{go_on, round, after_handler, after_io}
use mikode.Display.{
  Window, run_io, scan, draw, getch, scr_off, after_key, press, wait_step, put_random,
}

-- No key comes, and the stepper is off.
pub record Quiet (w : Window) : Type 0 where
  pub no_keys : w.keys ≡ []
  pub no_step : w.step ≡ false

draw-Quiet : (b : Bool) (i c : ℕ) {w : Window} → Quiet w → Quiet (if b then w else draw i c w)
draw-Quiet true i c q = q
draw-Quiet false i c q = record { no_keys = q.no_keys; no_step = q.no_step }

scan-Quiet : (left i : ℕ) (prog : ℕ → ℕ) {w : Window} → Quiet w → Quiet (scan left i prog w)
unfolding scan
scan-Quiet zero i prog q = q
scan-Quiet (suc left) i prog {w} q =
    scan-Quiet left (i + 1) prog (draw-Quiet (prog (i + scr_off) == w.old_win i) i _ q)

-- A quiet call goes on, with only the random number put into the memory.
pub record Passes (m : Machine) (r : Option (Bool × Window × Machine)) : Type 0 where
  pub windows : Window
  pub number : ℕ
  pub quiet : Quiet windows
  pub passed : r ≡ some (false, windows, put_random number m)

after_key-Passes : (w : Window) (m : Machine) → Quiet w → Passes m (after_key 0xffffffff w m)
unfolding after_key press wait_step ◌>>=◌
after_key-Passes w m q = record {
  windows = record w { calls = w.calls + 1 };
  number = w.rand w.calls;
  quiet = record { no_keys = q.no_keys; no_step = q.no_step };
  passed = rw q.no_step refl;
}

run_io-Passes : (op : ℕ) (w : Window) (m : Machine) → Quiet w → Passes m (run_io op w m)
unfolding run_io
run_io-Passes op w m q =
    let seen = scan (w.maxx * w.maxy) 0 m.prog w in
    let still = scan-Quiet (w.maxx * w.maxy) 0 m.prog q in
    subst (λ keys. Passes m (after_key (getch keys).0 (record seen { keys = (getch keys).1 }) m))
      (sym still.no_keys)
      (after_key-Passes (record seen { keys = [] }) m
        (record { no_keys = refl; no_step = still.no_step }))

-- A turn whose handler gives 0.
pub record Turned (w : Window) (m n : Machine) : Type 0 where
  pub windows : Window
  pub number : ℕ
  pub quiet : Quiet windows
  pub turned : round run_io w m ≡ go_on windows (put_random number n)

pub turn :
    (w : Window) (m n : Machine) (op : ℕ)
    → Quiet w
    → word_at m m.ip ≡ op
    → dispatch (decode op) op m ≡ some (0, n)
    → Turned w m n
unfolding round after_handler after_io
turn w m n op q fetched h =
    let passes = run_io-Passes op w n q in
    record {
      windows = passes.windows;
      number = passes.number;
      quiet = passes.quiet;
      turned = rw (fetched, h, passes.passed) refl;
    }

pub dispatch-dec :
    (op : ℕ) (m : Machine)
    → decode op ≡ Instr.dec
    → dispatch (decode op) op m ≡ some (0, (dec op m).1)
unfolding dispatch dec
dispatch-dec op m e = rw e refl

pub dispatch-branchc :
    (op : ℕ) (m : Machine)
    → decode op ≡ Instr.branchc
    → dispatch (decode op) op m ≡ some (0, (branchc op m).1)
unfolding dispatch branchc
dispatch-branchc op m e = rw e refl

update_same : (f : ℕ → ℕ) (p v : ℕ) → update f p v p ≡ v
update_same f p v = ground arith

branch_if-rest :
    (taken : Bool) (k : ℕ) (m : Machine)
    → ((branch_if taken k m).prog ≡ m.prog) × ((branch_if taken k m).reg ≡ m.reg)
unfolding branch_if
branch_if-rest true k m = (refl, refl)
branch_if-rest false k m = (refl, refl)

-- What `dec` and the branch behind it leave.
module _ (op : ℕ) (m : Machine) where
  pub dec-zero : bit 1 (dec op m).1.sreg ≡ digit (sub8 (m.reg (field_d op)) 1 == 0)
  unfolding dec
  dec-zero =
      let v = sub8 (m.reg (field_d op)) 1 in
      let m₁ = set_flag (m.reg (field_d op) == 0x80) flag_v m in
      rw (update_same m.reg (field_d op) v) (
        ap (λ (f : Status). f.z)
          (status-check_zsnf v (set_reg (field_d op) v m₁) (put_flag-lt _ flag_v m.sreg)))

  pub dec-rest :
      ((dec op m).1.ip ≡ (m.ip + 2) % 65536)
      × ((dec op m).1.prog ≡ m.prog)
      × ((dec op m).1.reg (field_d op) ≡ sub8 (m.reg (field_d op)) 1)
  unfolding dec check_zsnf sign_flag
  dec-rest = (refl, refl, update_same m.reg (field_d op) _)

  pub branchc-rest : ((branchc op m).1.prog ≡ m.prog) × ((branchc op m).1.reg ≡ m.reg)
  unfolding branchc
  branchc-rest = branch_if-rest _ _ m

pub word-same : (m n : Machine) (a : ℕ) → n.prog ≡ m.prog → word_at n a ≡ word_at m a
unfolding word_at
word-same m n a e = ap (λ (g : ℕ → ℕ). u16 (bit_or (g a) (g (a + 1) << 8))) e

pub word-put_random :
    (r : ℕ) (m : Machine) (a : ℕ) → a + 2 ≤ 0xe000 → word_at (put_random r m) a ≡ word_at m a
unfolding word_at
word-put_random r m a h =
    let low : (put_random r m).prog a ≡ m.prog a = ground arith in
    let high : (put_random r m).prog (a + 1) ≡ m.prog (a + 1) = ground arith in rw (low, high) refl
