-- ===== src/Display/Laws.antt =====
-- What `run_io` of src/display.c leaves of the machine and of the window.
use mikode.Prelude.{
  ℕ, zero, suc, ◌+◌, ◌*◌, ◌≡◌, refl, ◌∙◌, arith, Bool, true, false, ap, ◌||◌, ◌&&◌, ◌++◌, ltb, leb,
  ◌==◌, if◌then◌else◌, u8,
}
use mikode.Prelude.{◌>>◌}
use mikode.Prelude.Holds.{Holds, gives, if_Holds, any-Holds, bind-Holds, weaken-Holds}
use mikode.Machine.{Machine, update, set_prog}
use mikode.Machine.Valid.{IsValid, set_prog-IsValid, u8-lt}
use mikode.Display.Redrawn.{redrawn, scan-drawn}
use mikode.Display.{
  Window, key_f, wait_key, getch, is_quit, after_key, scan, scr_off, run_io, press, wait_step,
  put_random, draw,
}

-- The key, and the random number.
abbrev pub io_cell : ℕ → Bool
io_cell a = a == 0xe000 || (a == 0xe004 || a == 0xe005)

-- `m'` is `m` but for those cells.
pub record Untouched (m m' : Machine) : Type 0 where
  pub same_ip : m'.ip ≡ m.ip
  pub same_sp : m'.sp ≡ m.sp
  pub same_sreg : m'.sreg ≡ m.sreg
  pub same_reg : m'.reg ≡ m.reg
  pub same_prog : (a : ℕ) → (if io_cell a then m.prog a else m'.prog a) ≡ m.prog a

abbrev cell : ℕ → ℕ → Window → Window
cell i c w = if c == w.old_win i then w else draw i c w

draw-update :
    (b : Bool) (i c : ℕ) (w : Window) (j : ℕ)
    → (b ≡ true → c ≡ w.old_win i)
    → (if b then w else draw i c w).old_win j ≡ update w.old_win i c j
draw-update true i c w j h = let e = h refl in grind arith
draw-update false i c w j h = refl

cell-update : (i c : ℕ) (w : Window) (j : ℕ) → (cell i c w).old_win j ≡ update w.old_win i c j
cell-update i c w j = draw-update (c == w.old_win i) i c w j (λ h. ground arith)

scan-old_win :
    (left i : ℕ) (prog : ℕ → ℕ) (w : Window) (j : ℕ)
    → (scan left i prog w).old_win j
      ≡ (if leb i j && ltb j (i + left) then prog (j + scr_off) else w.old_win j)
unfolding scan
scan-old_win zero i prog w j = ground arith
scan-old_win (suc left) i prog w j =
    let rest = scan-old_win left (i + 1) prog (cell i (prog (i + scr_off)) w) j in
    let drawn = cell-update i (prog (i + scr_off)) w j in rest ∙ rw drawn (ground arith)

put_key-Untouched : (v : ℕ) (m : Machine) → Untouched m (set_prog 0xe000 v m)
put_key-Untouched v m = record {
  same_ip = refl;
  same_sp = refl;
  same_sreg = refl;
  same_reg = refl;
  same_prog = λ a. ground arith;
}

same-Untouched : (m : Machine) → Untouched m m
same-Untouched m = record {
  same_ip = refl;
  same_sp = refl;
  same_sreg = refl;
  same_reg = refl;
  same_prog = λ a. ground arith;
}

put_random-Untouched : (r : ℕ) (m m₁ : Machine) → Untouched m m₁ → Untouched m (put_random r m₁)
put_random-Untouched r m m₁ h = record {
  same_ip = h.same_ip;
  same_sp = h.same_sp;
  same_sreg = h.same_sreg;
  same_reg = h.same_reg;
  same_prog = λ a. let old = h.same_prog a in ground (arith, old);
}

-- A key leaves what is on the screen.
record Pressed (w : Window) (m : Machine) (r : Window × Machine) : Type 0 where
  screen : (r.0).old_win ≡ w.old_win
  drawn : (r.0).drawn ≡ w.drawn
  machine : Untouched m r.1

press-Pressed : (ch : ℕ) (w : Window) (m : Machine) → Holds (Pressed w m) (press ch w m)
unfolding press
press-Pressed ch w m =
    let kept = same-Untouched m in
    if_Holds (ch == key_f 1) (gives (record { screen = refl; drawn = refl; machine = kept })) (
      if_Holds (ch == key_f 2) (gives (record { screen = refl; drawn = refl; machine = kept })) (
        if_Holds (ch == key_f 4)
          (any-Holds (wait_key w.keys)
            λ keys. gives (record { screen = refl; drawn = refl; machine = kept }))
          (if_Holds (ch == key_f 5) (gives (record { screen = refl; drawn = refl; machine = kept }))
            (if_Holds (leb (u8 ch) 0x7f)
              (gives (record { screen = refl; drawn = refl; machine = put_key-Untouched _ m }))
              (gives (record { screen = refl; drawn = refl; machine = kept }))))))

wait_step-screen :
    (w : Window)
    → Holds (λ (w' : Window). (w'.old_win ≡ w.old_win) × (w'.drawn ≡ w.drawn)) (wait_step w)
unfolding wait_step
wait_step-screen w = if_Holds _ (any-Holds _ λ r. gives (refl, refl)) (gives (refl, refl))

-- From the key on, the cells of the screen stay, and of the machine all but the cells of `run_io`.
record Left (w : Window) (m : Machine) (r : Bool × Window × Machine) : Type 0 where
  machine : Untouched m r.2
  screen : (r.1).old_win ≡ w.old_win
  drawn : (r.1).drawn ≡ w.drawn

after_key-Left : (ch : ℕ) (w : Window) (m : Machine) → Holds (Left w m) (after_key ch w m)
unfolding after_key
after_key-Left ch w m =
    if_Holds (is_quit ch)
      (gives (record { machine = same-Untouched m; screen = refl; drawn = refl }))
      (bind-Holds (press-Pressed ch w m) λ r pressed. bind-Holds (wait_step-screen r.0) λ w₂ same.
        gives (record {
          machine = put_random-Untouched (w₂.rand w₂.calls) m r.1 pressed.machine;
          screen = same.0 ∙ pressed.screen;
          drawn = same.1 ∙ pressed.drawn;
        }))

-- What a call leaves: the machine, the copy of the cells of the screen, and what is drawn.
pub record Shown (w : Window) (m : Machine) (r : Bool × Window × Machine) : Type 0 where
  pub machine : Untouched m r.2
  pub screen :
      (j : ℕ)
      → (r.1).old_win j ≡ (if ltb j (w.maxx * w.maxy) then m.prog (j + scr_off) else w.old_win j)
  pub drawn :
      (r.1).drawn
      ≡ w.drawn ++ redrawn (w.maxx * w.maxy) 0 (λ j. m.prog (j + scr_off)) w.old_win w.maxx

-- Whatever keys come, a call that returns has touched nothing of the machine but the cells of the
-- key and of the random number, has copied the cells of the screen, and has drawn those of them
-- that differed from the copy and are above 31, in order.
pub run_io-Shown : (op : ℕ) (w : Window) (m : Machine) → Holds (Shown w m) (run_io op w m)
unfolding run_io
run_io-Shown op w m =
    let w₁ = scan (w.maxx * w.maxy) 0 m.prog w in
    weaken-Holds (after_key-Left (getch w₁.keys).0 (record w₁ { keys = (getch w₁.keys).1 }) m)
      λ r left. record {
        machine = left.machine;
        screen = λ j.
            ap (λ g. g j) left.screen ∙ scan-old_win (w.maxx * w.maxy) 0 m.prog w j ∙ ground arith;
        drawn = left.drawn ∙ scan-drawn (w.maxx * w.maxy) 0 m.prog w;
      }

press-IsValid :
    (ch : ℕ) (w : Window) {m : Machine}
    → IsValid m
    → Holds (λ (r : Window × Machine). IsValid r.1) (press ch w m)
unfolding press
press-IsValid ch w valid = if_Holds (ch == key_f 1) (gives valid) (
    if_Holds (ch == key_f 2) (gives valid) (
      if_Holds (ch == key_f 4) (any-Holds (wait_key w.keys) λ keys. gives valid) (
        if_Holds (ch == key_f 5) (gives valid) (
          if_Holds (leb (u8 ch) 0x7f) (gives (set_prog-IsValid valid _ _ (u8-lt ch)))
            (gives valid)))))

after_key-IsValid :
    (ch : ℕ) (w : Window) {m : Machine}
    → IsValid m
    → Holds (λ (r : Bool × Window × Machine). IsValid r.2) (after_key ch w m)
unfolding after_key
after_key-IsValid ch w valid = if_Holds (is_quit ch) (gives valid) (
    bind-Holds (press-IsValid ch w valid) λ r kept. any-Holds (wait_step r.0) λ w₂. gives (
      set_prog-IsValid (set_prog-IsValid kept 0xe004 _ (u8-lt (w₂.rand w₂.calls))) 0xe005 _
        (u8-lt (w₂.rand w₂.calls >> 8))))

-- A call keeps the fields of the machine in their ranges.
pub run_io-IsValid :
    (op : ℕ) (w : Window) (m : Machine)
    → IsValid m
    → Holds (λ (r : Bool × Window × Machine). IsValid r.2) (run_io op w m)
unfolding run_io
run_io-IsValid op w m valid =
    let w₁ = scan (w.maxx * w.maxy) 0 m.prog w in
    after_key-IsValid (getch w₁.keys).0 (record w₁ { keys = (getch w₁.keys).1 }) valid
