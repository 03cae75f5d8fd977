-- ===== src/Tests.antt =====
-- Machines on which the statements about src/execute.c and src/run_misc.c are tried.
pub mod Emulator
pub mod Assembler
pub mod Image
pub mod Program
pub mod Text
pub mod Display
pub mod Gpio
pub mod Whole
use mikode.Prelude.{ℕ, zero, suc, ◌<◌, ◌≡◌, refl, arith, Bool, true, List, [], ◌∷◌, all, ltb}
use mikode.Machine.{Machine}
use mikode.Machine.Valid.{IsValid}

-- An array that starts with the given bytes and is 0 behind them.
abbrev pub bytes : List ℕ → ℕ → ℕ
bytes [] i = 0
bytes (b ∷ rest) zero = b
bytes (b ∷ rest) (suc i) = bytes rest i

bytes-lt : (bs : List ℕ) → all (λ b. ltb b 256) bs ≡ true → (i : ℕ) → bytes bs i < 256
bytes-lt [] h i = omega arith
bytes-lt (b ∷ rest) h zero = ground arith
bytes-lt (b ∷ rest) h (suc i) = bytes-lt rest (ground arith) i

-- A machine with some bytes in its registers and at the start of its memory.
abbrev pub machine : ℕ → ℕ → ℕ → List ℕ → List ℕ → Machine
machine ip sp sreg regs mem = record {
  ip = ip;
  sp = sp;
  sreg = sreg;
  reg = bytes regs;
  prog = bytes mem;
}

pub machine-IsValid :
    (ip sp sreg : ℕ) (regs mem : List ℕ)
    → ip < 65536
    → sp < 65536
    → sreg < 256
    → all (λ b. ltb b 256) regs ≡ true
    → all (λ b. ltb b 256) mem ≡ true
    → IsValid (machine ip sp sreg regs mem)
machine-IsValid ip sp sreg regs mem h₁ h₂ h₃ h₄ h₅ = record {
  ip_fits = h₁;
  sp_fits = h₂;
  sreg_fits = h₃;
  reg_fits = bytes-lt regs h₄;
  prog_fits = bytes-lt mem h₅;
}

-- 200, 100, 1, 2 in the first registers, and no flag set.
abbrev pub clear_machine : Machine
clear_machine = machine 16 0xff00 0 (200 ∷ 100 ∷ 1 ∷ 2 ∷ 100 ∷ []) []

pub clear_machine-IsValid : IsValid clear_machine
clear_machine-IsValid =
    machine-IsValid 16 0xff00 0 (200 ∷ 100 ∷ 1 ∷ 2 ∷ 100 ∷ []) [] (omega arith) (omega arith)
      (omega arith) refl refl

-- The same with the carry set.
abbrev pub carry_machine : Machine
carry_machine = machine 16 0xff00 1 (200 ∷ 100 ∷ 1 ∷ 2 ∷ 100 ∷ []) []

pub carry_machine-IsValid : IsValid carry_machine
carry_machine-IsValid =
    machine-IsValid 16 0xff00 1 (200 ∷ 100 ∷ 1 ∷ 2 ∷ 100 ∷ []) [] (omega arith) (omega arith)
      (omega arith) refl refl

-- `LoadImm r1,7` and `Break` in memory.
abbrev pub program_machine : Machine
program_machine = machine 0 0xff00 0 [] (0x17 ∷ 0xe0 ∷ 0x98 ∷ 0x95 ∷ [])

pub program_machine-IsValid : IsValid program_machine
program_machine-IsValid =
    machine-IsValid 0 0xff00 0 [] (0x17 ∷ 0xe0 ∷ 0x98 ∷ 0x95 ∷ []) (omega arith) (omega arith)
      (omega arith) refl refl
