-- ===== src/Gpio/RunIo/Run.antt =====
-- The whole of the pins' part of `run_io` in src/display.c, and `run_io` and `execute` with it.
use mikode.Prelude.{
  ◌^◌, ◌-◌, ℕ, zero, suc, ◌+◌, ◌<◌, ◌≡◌, refl, sym, ap, ◌∙◌, arith, inl, inr, Bool, true, false,
  List, Option, some, none, if◌then◌else◌, ◌==◌, Bool-cases,
}
use mikode.Prelude.Holds.{Holds, map-Holds}
use mathlib.Core.Path.{subst}
use mikode.Machine.{Machine, update}
use mikode.Machine.Valid.{IsValid, set_prog-IsValid, u8-lt}
use mikode.Display.{Window}
use mikode.Display.Laws.{run_io-IsValid}
use mikode.Execute.{execute}
use mikode.Execute.Reach.{AtEnd, execute-IsValid}
use mikode.Gpio.Calls.{
  System, Port, Step, Answer, pure, returned, failed, ◌>>=◌, sys_read, log, reads,
}
use mikode.Gpio.{gpio_read, read_pins, with_bytes, put_level}
use mikode.Gpio.RunIo.{
  Pins, put_old, put_out, put_dir, after_read, after_dir, after_out, gpio_io, with_pins,
  run_io_gpio,
}
use mikode.Gpio.RunIo.Turn.{
  to_write, to_direct, Writes, Directs, Turn, out_failed, dir_failed, turned,
}
use mikode.Gpio.RunIo.Laws.{put_out-Writes, put_dir-Directs}

-- `gpio_read` always gives a byte.
data GivesByte : Answer ℕ × Port → Type 0 where
  gives_byte : {v : ℕ} {p : Port} → v < 256 → GivesByte (returned v, p)

byte-lt : {v : ℕ} {p : Port} → GivesByte (returned v, p) → v < 256
byte-lt (gives_byte h) = h

put_old-update :
    (cell new : ℕ) (old : ℕ → ℕ) (c : ℕ) → put_old cell new old c ≡ update old cell new c
put_old-update cell new old c = elim (Bool-cases (new == old cell)) [
  | inl same ↦ rw same (ground arith)
  | inr other ↦ rw other refl
]

update_ap :
    (cell new : ℕ) {old older : ℕ → ℕ}
    → ((c : ℕ) → old c ≡ older c)
    → (c : ℕ) → update old cell new c ≡ update older cell new c
update_ap cell new h c = ap (λ t. if cell == c then new else t) (h c)

module _ (os : System) where
  with_bytes-GivesByte :
      (rest : List ℕ → Step ℕ) (r : Option (List ℕ)) (p : Port)
      → ((bytes : List ℕ) → GivesByte (rest bytes p))
      → GivesByte (with_bytes rest r p)
  unfolding with_bytes pure
  with_bytes-GivesByte rest none p h = gives_byte (omega arith)
  with_bytes-GivesByte rest (some bytes) p h = h bytes

  read_pins-GivesByte :
      (left i : ℕ) (s : List ℕ) (val : ℕ) (p : Port)
      → val < 256
      → GivesByte (read_pins os left i s val p)
  unfolding read_pins ◌>>=◌ sys_read pure
  read_pins-GivesByte zero i s val p h = gives_byte h
  read_pins-GivesByte (suc left) i s val p h =
      with_bytes-GivesByte (put_level i s val (read_pins os left (i + 1)))
        (os.bytes_read p.calls (p.gpio_fds i)) (log (reads (p.gpio_fds i)) p)
        λ bytes. read_pins-GivesByte left (i + 1) _ _ _ (u8-lt _)

  gpio_read-GivesByte : (p : Port) → GivesByte (gpio_read os p)
  unfolding gpio_read
  gpio_read-GivesByte p = read_pins-GivesByte 8 0 _ 0 p (omega arith)

  -- What `run_io` does with the byte: it is never taken for -1.
  module _ (x : Pins) (m : Machine) where
    read-Turn :
        (p q : Port) (old : ℕ → ℕ) (a : Answer ℕ × Port)
        → Writes os
            (m.prog 0xe100)
            (to_write (m.prog 0xe101) (m.prog 0xe100) (x.old_rom 0))
            x.port
            (returned tt, p)
        → Directs os (m.prog 0xe101) (to_direct (m.prog 0xe101) (x.old_rom 1)) p (returned tt, q)
        → ((c : ℕ) → old c ≡ update (update x.old_rom 0 (m.prog 0xe100)) 1 (m.prog 0xe101) c)
        → gpio_read os q ≡ a
        → GivesByte a
        → Turn os x m (after_read os (record x { old_rom = old; port = q }) m a)
    read-Turn p q old a w d o e (gives_byte {v} h) =
        let small : (v == 2 ^ 32 - 1) ≡ false = ground arith in rw small (turned w d e o)

    dir-Turn :
        (p : Port) (a : Answer (Unit {0}) × Port)
        → Writes os
            (m.prog 0xe100)
            (to_write (m.prog 0xe101) (m.prog 0xe100) (x.old_rom 0))
            x.port
            (returned tt, p)
        → Directs os (m.prog 0xe101) (to_direct (m.prog 0xe101) (x.old_rom 1)) p a
        → Turn os x m
            (after_dir os (record x { old_rom = put_old 0 (m.prog 0xe100) x.old_rom }) m a)
    unfolding after_dir
    dir-Turn p (failed code, q) w d = dir_failed w d (put_old-update 0 (m.prog 0xe100) x.old_rom)
    dir-Turn p (returned tt, q) w d =
        let first = put_old 0 (m.prog 0xe100) x.old_rom in
        read-Turn p q (put_old 1 (m.prog 0xe101) first) (gpio_read os q) w d
          (λ c.
            put_old-update 1 (m.prog 0xe101) first c
            ∙ update_ap 1 (m.prog 0xe101) (put_old-update 0 (m.prog 0xe100) x.old_rom) c)
          refl (gpio_read-GivesByte q)

    out-Turn :
        (a : Answer (Unit {0}) × Port)
        → Writes os
            (m.prog 0xe100)
            (to_write (m.prog 0xe101) (m.prog 0xe100) (x.old_rom 0))
            x.port
            a
        → Turn os x m (after_out os x m a)
    unfolding after_out
    out-Turn (failed code, p) w = out_failed w
    out-Turn (returned tt, p) w = dir-Turn p _ w (
        subst
          (λ t.
            Directs os (m.prog 0xe101) (to_direct (m.prog 0xe101) (x.old_rom 1)) p
              (put_dir os (m.prog 0xe101) t p))
          (sym (put_old-update 0 (m.prog 0xe100) x.old_rom 1))
          (put_dir-Directs os (m.prog 0xe101) (x.old_rom 1) p))

    -- A call of the pins' part does what Turn says: it writes the new level of each pin whose level
    -- changed and which is an output, then the direction of each pin whose direction changed, both
    -- from pin 0 on, and then puts the input at 0xe102. Where a call fails it ends there, and
    -- `old_rom` keeps the cell whose pins were not all done.
    pub gpio_io-Turn : x.gpio_rom ≡ true → Turn os x m (gpio_io os x m)
    unfolding gpio_io
    gpio_io-Turn h =
        let run =
          after_out os x m (put_out os (m.prog 0xe101) (m.prog 0xe100) (x.old_rom 0) x.port) in
        subst (λ b. Turn os x m (if b then run else (false, x, m))) (sym h)
          (out-Turn _ (put_out-Writes os _ _ _ _))

  -- With the pins too, `run_io` keeps the fields of the machine in their ranges.
  Turn-IsValid :
      (x : Pins) {m : Machine} {r : Bool × Pins × Machine} → IsValid m → Turn os x m r → IsValid r.2
  Turn-IsValid x valid (out_failed w) = valid
  Turn-IsValid x valid (dir_failed w d o) = valid
  Turn-IsValid x valid (turned w d e o) =
      set_prog-IsValid valid 0xe102 _ (byte-lt (subst GivesByte e (gpio_read-GivesByte _)))

  gpio_io-IsValid : (x : Pins) {m : Machine} → IsValid m → IsValid (gpio_io os x m).2
  unfolding gpio_io
  gpio_io-IsValid x {m} valid = elim (Bool-cases x.gpio_rom) [
    | inl on ↦ Turn-IsValid x valid (gpio_io-Turn x m on)
    | inr off ↦ rw off valid
  ]

  with_pins-IsValid :
      (x : Pins) (r : Bool × Window × Machine) → IsValid r.2 → IsValid (with_pins os x r).2
  with_pins-IsValid x (true, w, m) valid = valid
  with_pins-IsValid x (false, w, m) valid = gpio_io-IsValid x valid

  run_io_gpio-IsValid :
      (op : ℕ) (w : Window × Pins) (m : Machine)
      → IsValid m
      → Holds (λ (r : Bool × (Window × Pins) × Machine). IsValid r.2) (run_io_gpio os op w m)
  unfolding run_io_gpio
  run_io_gpio-IsValid op (w, x) m valid =
      map-Holds (with_pins os x) (run_io-IsValid op w m valid) (with_pins-IsValid x)

  -- Whatever the system answers and whatever keys come, `execute` with the pins leaves every field
  -- of the machine in the range of its C type.
  pub execute-run_io_gpio-IsValid :
      (fuel : ℕ) (w : Window × Pins) (m : Machine)
      → IsValid m
      → AtEnd (run_io_gpio os) IsValid (execute (run_io_gpio os) fuel w m)
  execute-run_io_gpio-IsValid = execute-IsValid (run_io_gpio os) run_io_gpio-IsValid
