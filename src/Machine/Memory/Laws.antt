-- ===== src/Machine/Memory/Laws.antt =====
-- The stack, the fetch and the two-byte pointers of src/run_misc.c as arithmetic.
use mikode.Prelude.{ℕ, ◌+◌, ◌-◌, ◌*◌, ◌%◌, ◌≤◌, ◌<◌, ◌≡◌, ap, ◌∙◌, arith, ◌≢◌, ◌↔◌}
use mikode.Prelude.{◌==◌, ltb, if◌then◌else◌}
use mikode.Prelude.Bits.{join_bytes}
use mikode.Machine.{Machine, update}
use mikode.Machine.Valid.{IsValid}
use mikode.Machine.Memory.{word_at, push_val, pop_val, inc_reg, dec_reg}

-- A word is fetched low byte first.
pub word_at_lem : (m : Machine) (a : ℕ) → IsValid m → word_at m a ≡ m.prog (a + 1) * 256 + m.prog a
unfolding word_at
word_at_lem m a valid = omega (
  arith,
  join_bytes (m.prog a) (m.prog (a + 1)) (valid.prog_fits a),
  valid.prog_fits a,
  valid.prog_fits (a + 1),
)

-- Writing an element, and reading it or another.
pub update_self : (f : ℕ → ℕ) (p v : ℕ) → update f p v p ≡ v
update_self f p v = ground arith

pub update_other : (f : ℕ → ℕ) (p v q : ℕ) → p ≢ q → update f p v q ≡ f q
update_other f p v q h = ground arith

-- A push stores the byte at `sp` and lowers `sp` by one, at every address but 0, the clamp at
-- 0xf000 included: that assignment changes nothing.
pub push_val_lem :
    (v : ℕ) (m : Machine)
    → IsValid m
    → 0 < m.sp
    → push_val v m ≡ record m { sp = m.sp - 1; prog = update m.prog m.sp v }
unfolding push_val
push_val_lem v m valid h = ap (λ s. record m { sp = s; prog = update m.prog m.sp v }) same
  where
    same :
        (if (m.sp + 65536 - 1) % 65536 == 0xf000 then 0xf000 else (m.sp + 65536 - 1) % 65536)
        ≡ m.sp - 1
    same = ground (arith, valid.sp_fits)

-- A pop below the top of memory raises `sp` and reads there; at 0xffff it stays and reads there.
pub pop_val_lem :
    (m : Machine)
    → IsValid m
    → let s = if ltb m.sp 0xffff then m.sp + 1 else 0xffff in
      pop_val m ≡ (m.prog s, record m { sp = s })
unfolding pop_val
pop_val_lem m valid = ap (λ s. (m.prog s, record m { sp = s })) same
  where
    same :
        (if (m.sp + 1) % 65536 == 0 then 0xffff else (m.sp + 1) % 65536)
        ≡ (if ltb m.sp 0xffff then m.sp + 1 else 0xffff)
    same = ground (arith, valid.sp_fits)

-- What is pushed is popped, and `sp` comes back, wherever the stack pointer is but at 0.
pub pop-push_val :
    (v : ℕ) (m : Machine)
    → IsValid m
    → 0 < m.sp
    → pop_val (push_val v m) ≡ (v, record m { prog = update m.prog m.sp v })
unfolding pop_val
pop-push_val v m valid h = rw (push_val_lem v m valid h) (
    ap (λ s. (stored s, record m { sp = s; prog = stored })) back
    ∙ ap (λ b. (b, record m { prog = stored })) (update_self m.prog m.sp v))
  where
    stored : ℕ → ℕ
    stored = update m.prog m.sp v

    back : (if (m.sp - 1 + 1) % 65536 == 0 then 0xffff else (m.sp - 1 + 1) % 65536) ≡ m.sp
    back = ground (arith, valid.sp_fits)

-- The number in registers `rg` and `rg + 1`.
abbrev pub pair : Machine → ℕ → ℕ
pair m rg = m.reg (rg + 1) * 256 + m.reg rg

-- `inc_reg` counts a pair up, modulo 2 ^ 16.
pub pair-inc_reg :
    (rg : ℕ) (m : Machine) → IsValid m → pair (inc_reg rg m) rg ≡ (pair m rg + 1) % 65536
unfolding inc_reg
pair-inc_reg rg m valid = ground (arith, valid.reg_fits rg, valid.reg_fits (rg + 1))

-- `dec_reg` counts a pair down, modulo 2 ^ 16, exactly when its low byte is neither 0 nor 1: it
-- borrows when the low byte has become 0, not when it has passed below 0.
pub pair-dec_reg :
    (rg : ℕ) (m : Machine)
    → IsValid m
    → (pair (dec_reg rg m) rg ≡ (pair m rg + 65535) % 65536) ↔ (2 ≤ m.reg rg)
unfolding dec_reg
pair-dec_reg rg m valid = ground (arith, valid.reg_fits rg, valid.reg_fits (rg + 1))

pub pop_val_below :
    (m : Machine) (s : ℕ) → s < 65536 → m.sp + 1 ≡ s → pop_val m ≡ (m.prog s, record m { sp = s })
unfolding pop_val
pop_val_below m s h e = ap (λ a. (m.prog a, record m { sp = a })) same
  where
    same : (if (m.sp + 1) % 65536 == 0 then 0xffff else (m.sp + 1) % 65536) ≡ s
    same = ground arith
