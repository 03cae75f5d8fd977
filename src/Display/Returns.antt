-- ===== src/Display/Returns.antt =====
-- When `run_io` of src/display.c returns: it waits for keys behind F4 and in the stepper.
use mikode.Prelude.{
  ℕ, zero, suc, ◌+◌, ◌*◌, ◌≤◌, ◌≡◌, refl, sym, ◌∙◌, arith, Bool, true, false, ◌&&◌, ◌||◌, List, [],
  ◌∷◌, ◌==◌, ltb, leb, if◌then◌else◌, u8,
}
use mikode.Prelude.Returns.{Returns, returns, if_Returns, bind-Returns, held-Returns}
use mathlib.Core.Path.{subst}
use mikode.Display.Laws.{Shown, run_io-Shown}
use mikode.Machine.{Machine}
use mikode.Display.{
  Window, key_f, no_key, getch, scan, draw, scr_off, is_quit, wait_key, stepper, press, wait_step,
  after_key, run_io,
}

-- F5, F4 or a printable character.
abbrev pub ends_step : ℕ → Bool
ends_step ch = ch == key_f 5 || ((ltb 31 ch && ltb ch 128) || ch == key_f 4)

-- How many of the keys are such.
abbrev pub step_keys : List ℕ → ℕ
step_keys [] = 0
step_keys (ch ∷ keys) = if ends_step ch then step_keys keys + 1 else step_keys keys

no_key_ends : (ch : ℕ) → (ch == no_key) ≡ true → ends_step ch ≡ false
no_key_ends ch e = ground arith

wait_key-Returns :
    (keys : List ℕ)
    → 1 ≤ step_keys keys
    → Returns (λ left. step_keys keys ≤ 1 + step_keys left) (wait_key keys)
unfolding wait_key
wait_key-Returns [] h = absurd (omega arith)
wait_key-Returns (ch ∷ keys) h =
    if_Returns (ch == no_key)
      (λ e. let none = no_key_ends ch e in rw none (wait_key-Returns keys (ground (arith, none))))
      (λ e. returns (ground arith))

stepper-Returns : (keys : List ℕ) → 1 ≤ step_keys keys → Returns (λ r. Unit {0}) (stepper keys)
unfolding stepper
stepper-Returns [] h = absurd (omega arith)
stepper-Returns (ch ∷ keys) h =
    if_Returns (ch == key_f 5) (λ e. returns tt)
      (λ e.
        if_Returns ((ltb 31 ch && ltb ch 128) || ch == key_f 4) (λ k. returns tt)
          (λ k. stepper-Returns keys (ground arith)))

wait_step-Returns : (w : Window) → 1 ≤ step_keys w.keys → Returns (λ r. Unit {0}) (wait_step w)
unfolding wait_step
wait_step-Returns w h =
    if_Returns w.step (λ e. bind-Returns (stepper-Returns w.keys h) λ r u. returns tt)
      (λ e. returns tt)

press-Returns :
    (ch : ℕ) (w : Window) (m : Machine)
    → 2 ≤ step_keys w.keys
    → Returns (λ (r : Window × Machine). 1 ≤ step_keys (r.0).keys) (press ch w m)
unfolding press
press-Returns ch w m h =
    if_Returns (ch == key_f 1) (λ e. returns (omega arith))
      λ e.
        if_Returns (ch == key_f 2) (λ e. returns (omega arith))
          λ e.
            if_Returns (ch == key_f 4)
              (λ e.
                bind-Returns (wait_key-Returns w.keys (omega arith))
                  λ keys k. returns (omega arith))
              λ e.
                if_Returns (ch == key_f 5) (λ e. returns (omega arith))
                  λ e.
                    if_Returns (leb (u8 ch) 0x7f) (λ e. returns (omega arith))
                      λ e. returns (omega arith)

after_key-Returns :
    (ch : ℕ) (w : Window) (m : Machine)
    → 2 ≤ step_keys w.keys
    → Returns (λ r. Unit {0}) (after_key ch w m)
unfolding after_key
after_key-Returns ch w m h =
    if_Returns (is_quit ch) (λ e. returns tt)
      λ e.
        bind-Returns (press-Returns ch w m h)
          λ r k. bind-Returns (wait_step-Returns r.0 k) λ w₂ u. returns tt

scan-keys : (left i : ℕ) (prog : ℕ → ℕ) (w : Window) → (scan left i prog w).keys ≡ w.keys
unfolding scan
scan-keys zero i prog w = refl
scan-keys (suc left) i prog w =
    scan-keys left (i + 1) prog _
    ∙ cell-keys (prog (i + scr_off) == w.old_win i) i (prog (i + scr_off)) w
  where
    cell-keys : (b : Bool) (i c : ℕ) (w : Window) → (if b then w else draw i c w).keys ≡ w.keys
    cell-keys true i c w = refl
    cell-keys false i c w = refl

-- If behind the key that it looks at two more come that the stepper waits for, a call returns, has
-- touched nothing of the machine but the cell of the key and the two of the random number, has
-- copied the cells of the screen, and has drawn, in order and each at its line and column, exactly
-- those that differed from the copy and hold a character above 31.
pub run_io-Returns :
    (op : ℕ) (w : Window) (m : Machine)
    → 2 ≤ step_keys (getch w.keys).1
    → Returns (Shown w m) (run_io op w m)
unfolding run_io
run_io-Returns op w m h =
    let w₁ = scan (w.maxx * w.maxy) 0 m.prog w in
    let same = scan-keys (w.maxx * w.maxy) 0 m.prog w in
    held-Returns (run_io-Shown op w m) (
      after_key-Returns (getch w₁.keys).0 (record w₁ { keys = (getch w₁.keys).1 }) m
        (subst (λ keys. 2 ≤ step_keys (getch keys).1) (sym same) h))
