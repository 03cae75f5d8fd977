-- ===== src/Machine/Valid.antt =====
-- Ranges of the fields of a machine, as `uint8_t` and `uint16_t` of src/runheader.h have them, and
-- that the helpers of src/run_misc.c keep them.
use mikode.Prelude.{ℕ, ◌+◌, ◌<◌, arith, Bool, true, false, if◌then◌else◌, u8, u16}
use mikode.Machine.{Machine, update, set_reg, set_prog, set_flag, advance}
use mikode.Machine.Flags.{put_flag-lt}
use mikode.Machine.Status.{sign_flag, check_zsnf, check_cv, check_subf}
use mikode.Machine.Memory.{push_val, pop_val, inc_reg, dec_reg}

pub record IsValid (m : Machine) : Type 0 where
  pub ip_fits : m.ip < 65536
  pub sp_fits : m.sp < 65536
  pub sreg_fits : m.sreg < 256
  pub reg_fits : (i : ℕ) → m.reg i < 256
  pub prog_fits : (a : ℕ) → m.prog a < 256

pub u8-lt : (x : ℕ) → u8 x < 256
u8-lt x = omega arith

pub u16-lt : (x : ℕ) → u16 x < 65536
u16-lt x = omega arith

update-lt : (f : ℕ → ℕ) (p v : ℕ) → v < 256 → ((i : ℕ) → f i < 256) → (q : ℕ) → update f p v q < 256
update-lt f p v h all q = ground (arith, all q)

module _ {m : Machine} (valid : IsValid m) where
  open valid use {ip_fits, sp_fits, sreg_fits, reg_fits, prog_fits}

  pub set_reg-IsValid : (d v : ℕ) → v < 256 → IsValid (set_reg d v m)
  set_reg-IsValid d v h = record {
    ip_fits = ip_fits;
    sp_fits = sp_fits;
    sreg_fits = sreg_fits;
    reg_fits = update-lt m.reg d v h reg_fits;
    prog_fits = prog_fits;
  }

  pub set_prog-IsValid : (a v : ℕ) → v < 256 → IsValid (set_prog a v m)
  set_prog-IsValid a v h = record {
    ip_fits = ip_fits;
    sp_fits = sp_fits;
    sreg_fits = sreg_fits;
    reg_fits = reg_fits;
    prog_fits = update-lt m.prog a v h prog_fits;
  }

  pub sreg-IsValid : (w : ℕ) → w < 256 → IsValid (record m { sreg = w })
  sreg-IsValid w h = record {
    ip_fits = ip_fits;
    sp_fits = sp_fits;
    sreg_fits = h;
    reg_fits = reg_fits;
    prog_fits = prog_fits;
  }

  pub ip-IsValid : (a : ℕ) → a < 65536 → IsValid (record m { ip = a })
  ip-IsValid a h = record {
    ip_fits = h;
    sp_fits = sp_fits;
    sreg_fits = sreg_fits;
    reg_fits = reg_fits;
    prog_fits = prog_fits;
  }

  pub sp-IsValid : (a : ℕ) → a < 65536 → IsValid (record m { sp = a })
  sp-IsValid a h = record {
    ip_fits = ip_fits;
    sp_fits = h;
    sreg_fits = sreg_fits;
    reg_fits = reg_fits;
    prog_fits = prog_fits;
  }

  pub advance-IsValid : (n : ℕ) → IsValid (advance n m)
  advance-IsValid n = ip-IsValid _ (u16-lt (m.ip + n))

  pub set_flag-IsValid : (b : Bool) (f : ℕ) → IsValid (set_flag b f m)
  set_flag-IsValid b f = sreg-IsValid _ (put_flag-lt b f m.sreg)

  pub check_zsnf-IsValid : (r : ℕ) → IsValid (check_zsnf r m)
  unfolding check_zsnf sign_flag
  check_zsnf-IsValid r = sreg-IsValid _ (put_flag-lt _ _ _)

  pub check_cv-IsValid : (r a b : ℕ) → IsValid (check_cv r a b m)
  unfolding check_cv
  check_cv-IsValid r a b = sreg-IsValid _ (put_flag-lt _ _ _)

  pub check_subf-IsValid : (r a b : ℕ) → IsValid (check_subf r a b m)
  unfolding check_subf sign_flag
  check_subf-IsValid r a b = sreg-IsValid _ (put_flag-lt _ _ _)

  pub pop_val-lt : (pop_val m).0 < 256
  unfolding pop_val
  pop_val-lt = prog_fits _

  pub pop_val-IsValid : IsValid (pop_val m).1
  unfolding pop_val
  pop_val-IsValid = sp-IsValid _ (ground arith)

pub if-IsValid : (b : Bool) {m n : Machine} → IsValid m → IsValid n → IsValid (if b then m else n)
if-IsValid true p q = p
if-IsValid false p q = q

module _ {m : Machine} (valid : IsValid m) where
  pub push_val-IsValid : (v : ℕ) → v < 256 → IsValid (push_val v m)
  unfolding push_val
  push_val-IsValid v h = sp-IsValid (set_prog-IsValid valid m.sp v h) _ (ground arith)

  pub inc_reg-IsValid : (rg : ℕ) → IsValid (inc_reg rg m)
  unfolding inc_reg
  inc_reg-IsValid rg =
      let first = set_reg-IsValid valid rg _ (u8-lt (m.reg rg + 1)) in
      if-IsValid _ (set_reg-IsValid first (rg + 1) _ (u8-lt _)) first

  pub dec_reg-IsValid : (rg : ℕ) → IsValid (dec_reg rg m)
  unfolding dec_reg
  dec_reg-IsValid rg =
      let first = set_reg-IsValid valid rg _ (u8-lt _) in
      if-IsValid _ (set_reg-IsValid first (rg + 1) _ (u8-lt _)) first
