-- ===== src/Machine.antt =====
-- The state of the emulator (src/runheader.h `run_state`, and the memory behind `prog`), and the
-- assignments that every instruction is made of.
pub mod Flags
pub mod Valid
pub mod Status
pub mod Memory
use mikode.Prelude.{ℕ, ◌+◌, ◌%◌, Bool, bit_and, bit_or, u8, u16, not32, ◌==◌, if◌then◌else◌}

-- `run_state` and the array `*prog`. Both arrays are functions of the index; the C arrays end at
-- index 15 and at the end of the allocation.
pub record Machine : Type 0 where
  pub ip : ℕ
  pub sp : ℕ
  pub sreg : ℕ
  pub reg : ℕ → ℕ
  pub prog : ℕ → ℕ

-- What a handler returns: its `int`, and the machine it leaves.
abbrev pub Reply : Type 0
Reply = ℕ × Machine

abbrev pub ret0 : Machine → Reply
ret0 m = (0, m)

abbrev pub update : (ℕ → ℕ) → ℕ → ℕ → ℕ → ℕ
update f p v q = if p == q then v else f q

abbrev pub set_reg : ℕ → ℕ → Machine → Machine
set_reg d v m = record m { reg = update m.reg d v }

abbrev pub set_prog : ℕ → ℕ → Machine → Machine
set_prog a v m = record m { prog = update m.prog a v }

-- `state->ip += n`
abbrev pub advance : ℕ → Machine → Machine
advance n m = record m { ip = u16 (m.ip + n) }

-- The flags of `sreg`.
abbrev pub flag_c : ℕ
flag_c = 1

abbrev pub flag_z : ℕ
flag_z = 2

abbrev pub flag_n : ℕ
flag_n = 4

abbrev pub flag_v : ℕ
flag_v = 8

abbrev pub flag_s : ℕ
flag_s = 16

abbrev pub flag_t : ℕ
flag_t = 64

-- `if (b) state->sreg |= f; else state->sreg &= ~f;`, on the value of `sreg`.
unfoldable pub put_flag : Bool → ℕ → ℕ → ℕ
put_flag b f s = if b then u8 (bit_or s f) else u8 (bit_and s (not32 f))

abbrev pub set_flag : Bool → ℕ → Machine → Machine
set_flag b f m = record m { sreg = put_flag b f m.sreg }
