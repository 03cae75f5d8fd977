-- ===== src/Gpio/Exports.antt =====
-- How src/pi_gpio.c asks for the pins and gives them back, each by a file that it closes again.
use mikode.Prelude.{
  ℕ, zero, suc, ◌+◌, ◌≡◌, ◌≢◌, ap, ◌∙◌, refl, List, [], ◌∷◌, Option, some, none, codes,
}
use mathlib.Core.Path.{subst}
use mikode.Machine.{update}
use mikode.Gpio.Calls.{
  System, Port, Answer, returned, failed, pure, ◌>>=◌, ◌>>◌, sys_open, sys_write, sys_close,
  fail_if, log, opens, writes, closes, and_then,
}
use mikode.Gpio.{
  export_pin, export_pins, gpio_unexp, gpio_openfds, open_fd, open_fds, pin_text, value_path,
}
use mikode.Gpio.Setup.{Board, set_pins, gpio_init}

-- What a function of the index gives, from `i` on, so many times.
abbrev pub from {ℓ} : {A : Type ℓ} → (ℕ → A) → ℕ → ℕ → List A
from f zero i = []
from f (suc left) i = f i ∷ from f left (i + 1)

module _ (os : System) where
  -- The file is opened and the text written to it.
  abbrev pub told : List ℕ → List ℕ → ℕ → Port → Port
  told path text fd p = log (writes fd text) (log (opens path) p)

  abbrev pub taken : List ℕ → List ℕ → ℕ → Port → Option ℕ
  taken path text fd p = os.written (log (opens path) p).calls fd text

  -- The texts are written in order, each to the file opened for it; a file that was opened is closed,
  -- also where it takes nothing, which ends the run.
  pub data Sessions (path : List ℕ) : List (List ℕ) → Port → Answer (Unit {0}) × Port → Type 0 where
    all_told : {p : Port} → Sessions path [] p (returned tt, p)
    session :
        {text : List ℕ} {later : List (List ℕ)} {fd : ℕ} {p : Port} {r : Answer (Unit {0}) × Port}
        → os.opened p.calls path ≡ some fd
        → taken path text fd p ≢ none
        → Sessions path later (log (closes fd) (told path text fd p)) r
        → Sessions path (text ∷ later) p r
    not_opened :
        {text : List ℕ} {later : List (List ℕ)} {p : Port}
        → os.opened p.calls path ≡ none
        → Sessions path (text ∷ later) p (failed 1, log (opens path) p)
    not_taken :
        {text : List ℕ} {later : List (List ℕ)} {fd : ℕ} {p : Port}
        → os.opened p.calls path ≡ some fd
        → taken path text fd p ≡ none
        → Sessions path (text ∷ later) p (failed 1, log (closes fd) (told path text fd p))

  -- The paths are opened in order for the pins from `i` on, and the descriptors kept.
  pub data Opens : ℕ → List (List ℕ) → Port → Answer (Unit {0}) × Port → Type 0 where
    all_open : {i : ℕ} {p : Port} → Opens i [] p (returned tt, p)
    one_open :
        {i fd : ℕ} {path : List ℕ} {later : List (List ℕ)} {p : Port} {r : Answer (Unit {0}) × Port}
        → os.opened p.calls path ≡ some fd
        → Opens (i + 1) later (record (log (opens path) p) { gpio_fds = update p.gpio_fds i fd }) r
        → Opens i (path ∷ later) p r
    refused :
        {i : ℕ} {path : List ℕ} {later : List (List ℕ)} {p : Port}
        → os.opened p.calls path ≡ none
        → Opens i
            (path ∷ later)
            p
            (failed 1, record (log (opens path) p) { gpio_fds = update p.gpio_fds i 0xffffffff })

  opened_pin :
      (path : List ℕ) (n fd : ℕ) (later : List (List ℕ)) (p : Port)
      (rest : Port → Answer (Unit {0}) × Port)
      → ((q : Port) → q.pin_map ≡ p.pin_map → Sessions path later q (rest q))
      → os.opened p.calls path ≡ some fd
      → (b : Option ℕ) → taken path (pin_text n) fd p ≡ b
      → Sessions path (pin_text n ∷ later) p ((export_pin os path n >> rest) p)
  unfolding export_pin sys_open sys_write sys_close ◌>>=◌ fail_if
  opened_pin path n fd later p rest go h none k = rw (h, k) (not_taken h k)
  opened_pin path n fd later p rest go h (some b) k = rw (h, k) (session h (λ e. cc) (go _ refl))

  export_one :
      (path : List ℕ) (n : ℕ) (later : List (List ℕ)) (p : Port)
      (rest : Port → Answer (Unit {0}) × Port)
      → ((q : Port) → q.pin_map ≡ p.pin_map → Sessions path later q (rest q))
      → (a : Option ℕ) → os.opened p.calls path ≡ a
      → Sessions path (pin_text n ∷ later) p ((export_pin os path n >> rest) p)
  unfolding export_pin sys_open ◌>>=◌ fail_if
  export_one path n later p rest go none h = rw h (not_opened h)
  export_one path n later p rest go (some fd) h =
      opened_pin path n fd later p rest go h (taken path (pin_text n) fd p) refl

  export_pins-Sessions :
      (path : List ℕ) (left i : ℕ) (map : ℕ → ℕ) (p : Port)
      → p.pin_map ≡ map
      → Sessions path (from (λ i. pin_text (map i)) left i) p (export_pins os path left i p)
  unfolding export_pins pure
  export_pins-Sessions path zero i map p e = all_told
  export_pins-Sessions path (suc left) i map p e =
      let rest : Port → Answer (Unit {0}) × Port = export_pins os path left (i + 1) in
      let later = from (λ i. pin_text (map i)) left (i + 1) in
      subst
        (λ n. Sessions path (pin_text n ∷ later) p ((export_pin os path (p.pin_map i) >> rest) p))
        {y = map i} (ap (λ g. g i) e)
        (export_one path (p.pin_map i) later p rest
          (λ q same. export_pins-Sessions path left (i + 1) map q (same ∙ e))
          (os.opened p.calls path) refl)

  -- Whatever the system answers, `gpio_unexp` writes the numbers of the eight pins in order, each
  -- to its own opening of `unexport`, closes every file that it opened, and returns -1 exactly where
  -- an `open` or a `write` fails, which ends it.
  pub gpio_unexp-Sessions :
      (p : Port)
      → Sessions
          (codes "/sys/class/gpio/unexport")
          (from (λ i. pin_text (p.pin_map i)) 8 0)
          p
          (gpio_unexp os p)
  unfolding gpio_unexp
  gpio_unexp-Sessions p = export_pins-Sessions _ 8 0 p.pin_map p refl

  same_map :
      {path : List ℕ} {ts : List (List ℕ)} {p : Port} {r : Answer (Unit {0}) × Port}
      → Sessions path ts p r
      → r.1.pin_map ≡ p.pin_map
  same_map all_told = refl
  same_map (session h k s) = same_map s
  same_map (not_opened h) = refl
  same_map (not_taken h k) = refl

  open_one :
      (i : ℕ) (path : List ℕ) (later : List (List ℕ)) (p : Port)
      (rest : Port → Answer (Unit {0}) × Port)
      → ((q : Port) → q.pin_map ≡ p.pin_map → Opens (i + 1) later q (rest q))
      → (a : Option ℕ) → os.opened p.calls path ≡ a
      → Opens i (path ∷ later) p ((open_fd os i path >> rest) p)
  unfolding open_fd sys_open ◌>>=◌ fail_if
  open_one i path later p rest go none h = rw h (refused h)
  open_one i path later p rest go (some fd) h = rw h (one_open h (go _ refl))

  open_fds-Opens :
      (left i : ℕ) (map : ℕ → ℕ) (p : Port)
      → p.pin_map ≡ map
      → Opens i (from (λ i. value_path (map i)) left i) p (open_fds os left i p)
  unfolding open_fds pure
  open_fds-Opens zero i map p e = all_open
  open_fds-Opens (suc left) i map p e =
      let rest : Port → Answer (Unit {0}) × Port = open_fds os left (i + 1) in
      let later = from (λ i. value_path (map i)) left (i + 1) in
      subst
        (λ n.
          Opens i (value_path n ∷ later) p ((open_fd os i (value_path (p.pin_map i)) >> rest) p))
        {y = map i} (ap (λ g. g i) e)
        (open_one i (value_path (p.pin_map i)) later p rest
          (λ q same. open_fds-Opens left (i + 1) map q (same ∙ e))
          (os.opened p.calls (value_path (p.pin_map i))) refl)

  -- The ways in which `gpio_init` ends.
  pub data Inits (board : Board) (p : Port) : Answer (Unit {0}) × Port → Type 0 where
    no_pins :
        {code : ℕ} {q : Port}
        → set_pins os board p ≡ (failed code, q)
        → Inits board p (failed code, q)
    not_exported :
        {code : ℕ} {q r : Port}
        → set_pins os board p ≡ (returned tt, q)
        → Sessions
            (codes "/sys/class/gpio/export")
            (from (λ i. pin_text (q.pin_map i)) 8 0)
            q
            (failed code, r)
        → Inits board p (failed code, r)
    exported :
        {q r : Port} {s : Answer (Unit {0}) × Port}
        → set_pins os board p ≡ (returned tt, q)
        → Sessions
            (codes "/sys/class/gpio/export")
            (from (λ i. pin_text (q.pin_map i)) 8 0)
            q
            (returned tt, r)
        → Opens 0 (from (λ i. value_path (q.pin_map i)) 8 0) r s
        → Inits board p s

  init_opened :
      (board : Board) (p q : Port)
      → set_pins os board p ≡ (returned tt, q)
      → (a : Answer (Unit {0}) × Port)
      → Sessions (codes "/sys/class/gpio/export") (from (λ i. pin_text (q.pin_map i)) 8 0) q a
      → Inits board p (and_then (λ u. gpio_openfds os) a)
  unfolding gpio_openfds
  init_opened board p q e (failed code, r) s = not_exported e s
  init_opened board p q e (returned tt, r) s =
      exported e s (open_fds-Opens 8 0 q.pin_map r (same_map s))

  init_exported :
      (board : Board) (p : Port) (a : Answer (Unit {0}) × Port)
      → set_pins os board p ≡ a
      → Inits board p (
          and_then
            (λ u. gpio_openfds os)
            (and_then (λ u. export_pins os (codes "/sys/class/gpio/export") 8 0) a))
  init_exported board p (failed code, q) e = no_pins e
  init_exported board p (returned tt, q) e =
      init_opened board p q e _ (export_pins-Sessions _ 8 0 q.pin_map q refl)

  -- `gpio_init` finds out which pins there are, asks for them as `gpio_unexp` gives them back, and
  -- then opens the file `value` of each; where one of these fails it returns its code.
  pub gpio_init-Inits : (board : Board) (p : Port) → Inits board p (gpio_init os board p)
  unfolding gpio_init ◌>>=◌
  gpio_init-Inits board p = init_exported board p (set_pins os board p) refl
