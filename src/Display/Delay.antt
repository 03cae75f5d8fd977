-- ===== src/Display/Delay.antt =====
-- A delay loop that the emulator runs: `dec` on a register, and a branch back to it while it is not 0.
pub mod Turns
use mikode.Prelude.{
  ℕ, zero, suc, ◌+◌, ◌*◌, ◌%◌, ◌<◌, ◌≤◌, ◌≡◌, refl, sym, ap, ◌∙◌, arith, Bool, true, false, not,
  List, [], Option, some, none, if◌then◌else◌, ◌==◌, u16, u8, sub8, bit_or, ◌<<◌,
}
use mathlib.Core.Path.{subst}
use mikode.Prelude.Bits.{bit}
use mikode.Prelude.Chars.{◌>>=◌}
use mikode.Machine.{Machine, update, set_reg, set_flag, advance, flag_v}
use mikode.Machine.Flags.{digit, Status, put_flag-lt}
use mikode.Machine.Status.{check_zsnf, sign_flag}
use mikode.Machine.Status.Laws.{status-check_zsnf}
use mikode.Machine.Memory.{word_at}
use mikode.Decode.{Instr, decode}
use mikode.Dispatch.{dispatch}
use mikode.Handlers.Fields.{field_d, field_bit, field_offset}
use mikode.Handlers.Sub.{dec}
use mikode.Handlers.Flow.{branch_to, branch_if, branchc}
use mikode.Handlers.Flow.Compare.{landing, ip-branchc}
use mikode.Execute.{go_on, round, loop, after_round, after_handler, after_io}
use mikode.Display.{
  Window, run_io, scan, draw, getch, scr_off, after_key, press, wait_step, put_random,
}
use mikode.Display.Delay.Turns.{
  Quiet, Turned, turn, dispatch-dec, dispatch-branchc, dec-zero, dec-rest, branchc-rest, word-same,
  word-put_random,
}

-- So many turns lead behind the loop, with 0 in the register.
pub record Delayed (a op : ℕ) (w : Window) (m : Machine) (turns : ℕ) : Type 0 where
  pub windows : Window
  pub machine : Machine
  pub behind : machine.ip ≡ a + 4
  pub zeroed : machine.reg (field_d op) ≡ 0
  pub turned : (k : ℕ) → loop run_io (turns + k) w m ≡ loop run_io k windows machine

module _ (a op br : ℕ) (below : a + 4 ≤ 0xe000) (is_dec : decode op ≡ Instr.dec)
    (is_branch : decode br ≡ Instr.branchc) (on_zero : field_bit br ≡ 1)
    (back : branch_to (field_offset br) (a + 2) ≡ a) where
  -- The two instructions stand at `a`, and the register has the value.
  record At (m : Machine) (v : ℕ) : Type 0 where
    value : m.reg (field_d op) ≡ v
    first : word_at m a ≡ op
    second : word_at m (a + 2) ≡ br

  -- What two turns leave.
  record Round2 (w : Window) (m : Machine) (v : ℕ) : Type 0 where
    windows : Window
    machine : Machine
    quiet : Quiet windows
    at : At machine (sub8 v 1)
    next : machine.ip ≡ (if sub8 v 1 == 0 then a + 4 else a)
    two : (k : ℕ) → loop run_io (suc (suc k)) w m ≡ loop run_io k windows machine

  -- The branch lands at the first instruction, or behind the second if Z is set.
  landed : (zero : Bool) → landing (not (digit zero == 1)) br (a + 2) ≡ (if zero then a + 4 else a)
  landed true = omega arith
  landed false = back

  pass : (w : Window) (m : Machine) (v : ℕ) → Quiet w → m.ip ≡ a → At m v → Round2 w m v
  unfolding loop after_round
  pass w m v q start at =
      let n = (dec op m).1 in
      let left = dec-rest op m in
      let first : Turned w m n =
        turn w m n op q (ap (word_at m) start ∙ at.first) (dispatch-dec op m is_dec) in
      let m₁ = put_random first.number n in
      let n₁ = (branchc br m₁).1 in
      let ip₁ : m₁.ip ≡ a + 2 = left.0 ∙ ap (λ t. (t + 2) % 65536) start ∙ omega arith in
      let kept₁ : (b : ℕ) → b + 2 ≤ 0xe000 → word_at m₁ b ≡ word_at m b =
        λ b h. word-put_random first.number n b h ∙ word-same m n b left.1 in
      let second : Turned first.windows m₁ n₁ =
        turn first.windows m₁ n₁ br first.quiet
          (ap (word_at m₁) ip₁ ∙ kept₁ (a + 2) (omega arith) ∙ at.second)
          (dispatch-branchc br m₁ is_branch) in
      let kept : (b : ℕ) → b + 2 ≤ 0xe000 → word_at (put_random second.number n₁) b ≡ word_at m b =
        λ b h.
          word-put_random second.number n₁ b h
          ∙ word-same m₁ n₁ b (branchc-rest br m₁).0
          ∙ kept₁ b h in
      record {
        windows = second.windows;
        machine = put_random second.number n₁;
        quiet = second.quiet;
        at = record {
          value =
              ap (λ (g : ℕ → ℕ). g (field_d op)) (branchc-rest br m₁).1
              ∙ left.2
              ∙ ap (λ t. sub8 t 1) at.value;
          first = kept a (omega arith) ∙ at.first;
          second = kept (a + 2) (omega arith) ∙ at.second;
        };
        next =
            ip-branchc br m₁
            ∙ ap (λ t. landing (not (bit t m₁.sreg == 1)) br m₁.ip) on_zero
            ∙ ap (λ t. landing (not (t == 1)) br m₁.ip) (dec-zero op m)
            ∙ ap (λ t. landing (not (digit (sub8 t 1 == 0) == 1)) br m₁.ip) at.value
            ∙ ap (landing (not (digit (sub8 v 1 == 0) == 1)) br) ip₁
            ∙ landed (sub8 v 1 == 0);
        two = λ k. rw (first.turned, second.turned) refl;
      }

  count_down :
      (c : ℕ) (w : Window) (m : Machine) (v : ℕ)
      → c < 256
      → (c + 1) % 256 ≡ v
      → Quiet w
      → m.ip ≡ a
      → At m v
      → Delayed a op w m (2 * (c + 1))
  count_down zero w m v h e q start at =
      let two = pass w m v q start at in
      let last : sub8 v 1 ≡ 0 = omega arith in
      record {
        windows = two.windows;
        machine = two.machine;
        behind = two.next ∙ ap (λ t. if t == 0 then a + 4 else a) last;
        zeroed = two.at.value ∙ last;
        turned = λ k.
            ap (λ t. loop run_io t w m) {x = 2 * (zero + 1) + k} {y = suc (suc k)} (omega arith)
            ∙ two.two k;
      }
  count_down (suc c) w m v h e q start at =
      let two = pass w m v q start at in
      let less : (c + 1) % 256 ≡ sub8 v 1 = omega arith in
      let more : (sub8 v 1 == 0) ≡ false = ground arith in
      let rest =
        count_down c two.windows two.machine (sub8 v 1) (omega arith) less two.quiet
          (two.next ∙ ap (λ b. if b then a + 4 else a) more) two.at in
      record {
        windows = rest.windows;
        machine = rest.machine;
        behind = rest.behind;
        zeroed = rest.zeroed;
        turned = λ k.
            ap (λ t. loop run_io t w m) {x = 2 * (suc c + 1) + k} {y = suc (suc (2 * (c + 1) + k))}
              (omega arith)
            ∙ two.two (2 * (c + 1) + k)
            ∙ rest.turned k;
      }

  -- The delay loop ends: while no key comes, `dec` on a register and a branch back to it on Z clear
  -- take two turns for each count of the register, 256 counts if it is 0, after which the loop of
  -- `execute` goes on behind the branch with 0 in the register.
  pub loop-Delayed :
      (w : Window) (m : Machine)
      → Quiet w
      → m.ip ≡ a
      → word_at m a ≡ op
      → word_at m (a + 2) ≡ br
      → m.reg (field_d op) < 256
      → Delayed a op w m (2 * (if m.reg (field_d op) == 0 then 256 else m.reg (field_d op)))
  loop-Delayed w m q start first second fits =
      let v = m.reg (field_d op) in
      let at : At m v = record { value = refl; first = first; second = second } in
      let c = (v + 255) % 256 in
      subst (Delayed a op w m) {x = 2 * (c + 1)} (ground arith)
        (count_down c w m v (omega arith) (omega arith) q start at)
