-- ===== src/Handlers/Flow/Skip.antt =====
-- The skips of src/execute.c: how far they go.
use mikode.Prelude.{
  ℕ, ◌+◌, ◌%◌, ◌^◌, ◌<◌, ◌≡◌, refl, ap, ◌∙◌, arith, Bool, true, false, not, if◌then◌else◌, ◌==◌,
  truth, ◌<<◌, bit_and, u16,
}
use mikode.Prelude.Bits.{bit}
use mikode.Machine.{Machine, advance, flag_z}
use mikode.Machine.Flags.{digit, status, truth-bit_and_pow}
use mikode.Machine.Valid.{IsValid}
use mikode.Machine.Memory.{word_at, check_32}
use mikode.Decode.{decode}
use mikode.Decode.Sizes.{has_operand, check_32-decode}
use mikode.Handlers.Fields.{field_d, field_r, field_bit}
use mikode.Handlers.Sub.{cp, cpse}
use mikode.Handlers.Sub.Laws.{IsCompared, cp-IsCompared, less}
use mikode.Handlers.Flow.{skip_if, sbrc, sbrs}

-- The bytes that the instruction at `a` takes.
abbrev pub size_at : Machine → ℕ → ℕ
size_at m a = if has_operand (decode (word_at m a)) then 4 else 2

-- The instruction pointer behind an instruction of two bytes at `m.ip`, with or without the
-- next instruction.
abbrev pub past : Bool → Machine → ℕ
past skipped m =
    let next = (m.ip + 2) % 65536 in if skipped then (next + size_at m next) % 65536 else next

-- What the skip of one instruction at `ip` adds up to.
step_over :
    (four : Bool) (ip : ℕ)
    → u16 ((if four then u16 (ip + 2) else ip) + 2) ≡ (ip + (if four then 4 else 2)) % 65536
step_over true ip = omega arith
step_over false ip = refl

skip_next :
    (m : Machine)
    → advance 2 (if check_32 m then advance 2 m else m)
      ≡ record m { ip = (m.ip + size_at m m.ip) % 65536 }
skip_next m = rw (check_32-decode m) (split (has_operand (decode (word_at m m.ip))))
  where
    split :
        (four : Bool)
        → advance 2 (if four then advance 2 m else m)
          ≡ record m { ip = (m.ip + (if four then 4 else 2)) % 65536 }
    split true = ap (λ (t : ℕ). record m { ip = t }) (step_over true m.ip)
    split false = refl

skip_if_lem : (taken : Bool) (m : Machine) → skip_if taken m ≡ record m { ip = past taken m }
unfolding skip_if word_at
skip_if_lem true m = skip_next (advance 2 m)
skip_if_lem false m = refl

bit_test : (b x : ℕ) → truth (bit_and x (1 << b)) ≡ (bit b x == 1)
bit_test b x = let one : 1 << b ≡ 2 ^ b = omega arith in rw one (truth-bit_and_pow b x)

-- `sbrs` skips the next instruction, of two or four bytes, exactly when its bit is set, and `sbrc`
-- exactly when it is clear; both change nothing but the instruction pointer.
pub sbrs-past :
    (op : ℕ) (m : Machine)
    → let set = bit (field_bit op) (m.reg (field_d op)) == 1 in
      ((sbrs op m).1 ≡ record m { ip = past set m })
      × ((sbrc op m).1 ≡ record m { ip = past (not set) m })
unfolding sbrs sbrc
sbrs-past op m =
    let test = bit_test (field_bit op) (m.reg (field_d op)) in
    (rw test (skip_if_lem _ m), rw test (skip_if_lem _ m))

z_test : (w : ℕ) → truth (bit_and w flag_z) ≡ ((status w).z == 1)
z_test w = truth-bit_and_pow 1 w

equal_bit : (a b : ℕ) → a < 256 → b < 256 → (digit (less a b 0 == 0) == 1) ≡ (a == b)
equal_bit a b ha hb = ground arith

cpse_if :
    (op : ℕ) (m : Machine) (equal : Bool)
    → truth (bit_and (cp op m).1.sreg flag_z) ≡ equal
    → (cpse op m).1 ≡ (
        if equal
        then advance 2 (if check_32 (cp op m).1 then advance 2 (cp op m).1 else (cp op m).1)
        else (cp op m).1)
unfolding cpse
cpse_if op m true e = rw e refl
cpse_if op m false e = rw e refl

size_by_memory : (n m : Machine) (a : ℕ) → n.prog ≡ m.prog → size_at n a ≡ size_at m a
unfolding word_at
size_by_memory n m a e = ap (λ (f : ℕ → ℕ). size_at (record m { prog = f }) a) e

-- `cpse` leaves the flags of `cp`, and skips the next instruction, of two or four bytes, exactly
-- when its registers are equal.
pub cpse-past :
    (op : ℕ) (m : Machine)
    → IsValid m
    → (cpse op m).1 ≡ record (cp op m).1 { ip = past (m.reg (field_d op) == m.reg (field_r op)) m }
cpse-past op m valid = split (m.reg (field_d op) == m.reg (field_r op)) same
  where
    compared : IsCompared (m.reg (field_d op)) (m.reg (field_r op)) 0 m (cp op m).1
    compared = cp-IsCompared op m valid

    same : truth (bit_and (cp op m).1.sreg flag_z) ≡ (m.reg (field_d op) == m.reg (field_r op))
    same =
        z_test (cp op m).1.sreg
        ∙ ap (λ w. w.z == 1) compared.flags
        ∙ equal_bit _ _ (valid.reg_fits _) (valid.reg_fits _)

    same_size : (a : ℕ) → size_at (cp op m).1 a ≡ size_at m a
    same_size a = size_by_memory (cp op m).1 m a compared.memory

    there :
        record (cp op m).1 { ip = ((cp op m).1.ip + size_at (cp op m).1 (cp op m).1.ip) % 65536 }
        ≡ record (cp op m).1 { ip = past true m }
    there =
        ap (λ (t : ℕ). record (cp op m).1 { ip = t })
          (ap (λ (t : ℕ). (t + size_at (cp op m).1 t) % 65536) compared.next
            ∙ ap (λ (t : ℕ). ((m.ip + 2) % 65536 + t) % 65536) (same_size ((m.ip + 2) % 65536)))

    split :
        (equal : Bool)
        → truth (bit_and (cp op m).1.sreg flag_z) ≡ equal
        → (cpse op m).1 ≡ record (cp op m).1 { ip = past equal m }
    split true e = cpse_if op m true e ∙ skip_next (cp op m).1 ∙ there
    split false e =
        cpse_if op m false e ∙ ap (λ (t : ℕ). record (cp op m).1 { ip = t }) compared.next
