-- ===== src/Display.antt =====
-- `run_io` of src/display.c, built without the GPIO pins. The library ncurses is seen through what
-- it is asked to draw and the keys that it gives; the text window, which shows the registers and is
-- never read, is left out.
pub mod Redrawn
pub mod Laws
pub mod Run
pub mod Returns
pub mod Delay
use mikode.Prelude.{
  ℕ, zero, suc, ◌+◌, ◌-◌, ◌*◌, ◌/◌, ◌%◌, Bool, true, false, not, ◌&&◌, ◌||◌, List, [], ◌∷◌, ◌++◌,
  Option, some, none, ◌==◌, ltb, leb, if◌then◌else◌, u8,
}
use mikode.Prelude.{◌>>◌}
use mikode.Prelude.Chars.{◌>>=◌}
use mikode.Machine.{Machine, update, set_prog}

-- A `mvwaddch`: the line, the column and the character.
pub record Drawn : Type 0 where
  pub row : ℕ
  pub column : ℕ
  pub char : ℕ

-- `_rom`, the global `show_reg`, what was drawn, what `getch` gives from now on, each an `int` by
-- its pattern of 32 bits, and what `rand` gives, with the number of its calls.
pub record Window : Type 0 where
  pub old_win : ℕ → ℕ
  pub maxx : ℕ
  pub maxy : ℕ
  pub step : Bool
  pub show_reg : Bool
  pub drawn : List Drawn
  pub keys : List ℕ
  pub rand : ℕ → ℕ
  pub calls : ℕ

abbrev pub scr_off : ℕ
scr_off = 0xc000

-- One cell of the screen.
abbrev draw : ℕ → ℕ → Window → Window
draw i c w = record w {
  old_win = update w.old_win i c;
  drawn =
      if ltb 31 c
      then w.drawn ++ (record { row = i / w.maxx; column = i % w.maxx; char = c } ∷ [])
      else w.drawn;
}

-- The first loop, from the cell `i` on.
unfoldable pub scan : ℕ → ℕ → (ℕ → ℕ) → Window → Window
scan zero i prog w = w
scan (suc left) i prog w =
    let c = prog (i + scr_off) in
    let w₁ = if c == w.old_win i then w else draw i c w in scan left (i + 1) prog w₁

-- ERR, and `KEY_F (n)`
abbrev pub no_key : ℕ
no_key = 0xffffffff

abbrev pub key_f : ℕ → ℕ
key_f n = 264 + n

-- `getch` after `nodelay (stdscr, TRUE)`: it does not wait.
abbrev getch : List ℕ → ℕ × List ℕ
getch [] = (no_key, [])
getch (ch ∷ keys) = (ch, keys)

-- `getch` after `nodelay (stdscr, FALSE)`; `none` if no key will come.
unfoldable pub wait_key : List ℕ → Option (List ℕ)
wait_key [] = none
wait_key (ch ∷ keys) = if ch == no_key then wait_key keys else some keys

-- The loop of the stepper: `w->step` and the keys left; `none` if it goes on for ever.
unfoldable pub stepper : List ℕ → Option (Bool × List ℕ)
stepper [] = none
stepper (ch ∷ keys) =
    let rest = stepper keys in
    if ch == key_f 5
    then some (true, keys)
    else if (ltb 31 ch && ltb ch 128) || ch == key_f 4
    then some (false, keys)
    else rest

abbrev pub is_quit : ℕ → Bool
is_quit ch = ch == key_f 3 || ch == 3

-- The chain of keys, `KEY_F (3)` and ^C left out.
unfoldable pub press : ℕ → Window → Machine → Option (Window × Machine)
unfolding wait_key
press ch w m =
    if ch == key_f 1
    then some (record w { show_reg = not w.show_reg }, m)
    else if ch == key_f 2
    then some (w, m)
    else if ch == key_f 4
    then (do keys ← wait_key w.keys; some (record w { keys = keys }, m))
    else if ch == key_f 5
    then some (record w { step = true }, m)
    else if leb (u8 ch) 0x7f
    then some (w, set_prog 0xe000 (u8 ch) m)
    else some (w, m)

unfoldable pub wait_step : Window → Option Window
unfolding stepper
wait_step w =
    if w.step then (do r ← stepper w.keys; some (record w { step = r.0; keys = r.1 })) else some w

-- `r` at 0xe004, low byte first.
abbrev put_random : ℕ → Machine → Machine
put_random r m = set_prog 0xe005 (u8 (r >> 8)) (set_prog 0xe004 (u8 r) m)

-- From the key on: whether the `int` is negative, and what is left; `none` if it waits for a key
-- that never comes.
unfoldable pub after_key : ℕ → Window → Machine → Option (Bool × Window × Machine)
unfolding press wait_step
after_key ch w m = if is_quit ch then some (true, w, m) else do
  (w₁, m₁) ← press ch w m
  w₂ ← wait_step w₁
  some (false, record w₂ { calls = w₂.calls + 1 }, put_random (w₂.rand w₂.calls) m₁)

unfoldable pub run_io : ℕ → Window → Machine → Option (Bool × Window × Machine)
unfolding scan after_key
run_io op w m =
    let w₁ = scan (w.maxx * w.maxy) 0 m.prog w in
    let (ch, keys) = getch w₁.keys in after_key ch (record w₁ { keys = keys }) m
