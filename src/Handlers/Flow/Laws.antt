-- ===== src/Handlers/Flow/Laws.antt =====
-- What branches, calls and skips of src/execute.c do to the instruction pointer and the stack.
use mikode.Prelude.{ℕ, ◌+◌, ◌-◌, ◌*◌, ◌/◌, ◌%◌, ◌^◌, ◌≤◌, ◌<◌, ◌≡◌, refl, ap, ◌∙◌, arith}
use mathlib.Core.Path.{subst}
use mikode.Prelude.{
  ◌>>◌, ◌<<◌, ◌==◌, ltb, leb, if◌then◌else◌, u8, u16, truth, bit_and, bit_or, not32,
}
use mikode.Prelude.Bits.{join_bytes_high, low_byte, high_byte}
use mikode.Prelude.{inl, inr, true, all_below, all_below_sound, Bool-cases}
use mikode.Machine.Flags.{digit}
use mikode.Machine.{Machine, update}
use mikode.Machine.Valid.{IsValid, push_val-IsValid, ip-IsValid}
use mikode.Machine.Memory.Laws.{push_val_lem, pair, pop_val_below}
use mikode.Handlers.Flow.{branch_to, push_ip, call, icall, ret}

-- A word is pushed low byte first, below `sp`.
push_ip_lem :
    (m : Machine)
    → IsValid m
    → 1 < m.sp
    → push_ip m ≡ record m {
      sp = m.sp - 2;
      prog = update (update m.prog m.sp (m.ip % 256)) (m.sp - 1) (m.ip / 256);
    }
unfolding push_ip
push_ip_lem m valid h =
    let low = u8 (bit_and m.ip 0x00ff) in
    let high = u8 (bit_and m.ip 0xff00 >> 8) in
    let first = push_val_lem low m valid (omega arith) in
    let valid₁ = subst IsValid first (push_val-IsValid valid low (omega arith)) in
    let low_is : low ≡ m.ip % 256 = omega (arith, low_byte m.ip) in
    let high_is : high ≡ m.ip / 256 = omega (arith, high_byte m.ip, valid.ip_fits) in
    let two : m.sp - 1 - 1 ≡ m.sp - 2 = omega arith in
    rw first (push_val_lem high _ valid₁ (omega arith) ∙ rw (low_is, high_is, two))

-- A machine in which a subroutine has kept the caller's stack: the stack pointer is back where the
-- call left it, two below `s`, and the two bytes above it still hold the return address `a`.
pub record KeepsFrame (s a : ℕ) (m : Machine) : Type 0 where
  pub pointer : m.sp ≡ s - 2
  pub high : m.prog (s - 1) ≡ a / 256
  pub low : m.prog s ≡ a % 256

ret_lem :
    (op s a : ℕ) (m : Machine)
    → 1 < s
    → s < 65536
    → a < 65536
    → KeepsFrame s a m
    → (ret op m).1 ≡ record m { ip = a; sp = s }
unfolding ret
ret_lem op s a m h top fits kept =
    let first = pop_val_below m (s - 1) (omega arith) (omega arith) in
    let second = pop_val_below (record m { sp = s - 1 }) s top (omega arith) in
    let joined : bit_or (u16 (m.prog (s - 1) << 8)) (m.prog s) ≡ a =
      omega (arith, join_bytes_high (m.prog s) (m.prog (s - 1)) (omega arith), joins) in
    rw (first, second, joined)
  where
    joins :
        bit_or (u16 (m.prog (s - 1) << 8)) (m.prog s) ≡ bit_or (m.prog (s - 1) * 2 ^ 8) (m.prog s)
    joins = ap (λ (x : ℕ). bit_or x (m.prog s)) (omega arith)

-- What `push_ip` leaves is the frame of the address that it pushed.
push_ip-KeepsFrame : (m : Machine) → IsValid m → 1 < m.sp → KeepsFrame m.sp m.ip (push_ip m)
push_ip-KeepsFrame m valid h =
    let pushed = push_ip_lem m valid h in
    record {
      pointer = ap (λ n. n.sp) pushed;
      high = ap (λ n. n.prog (m.sp - 1)) pushed ∙ ground arith;
      low = ap (λ n. n.prog m.sp) pushed ∙ ground arith;
    }

-- A call and the return of its subroutine: after `call`, control is at `op2` and the frame of the
-- next instruction is on the stack; and from any machine `sub` in which the subroutine has kept
-- that frame, `ret` goes to the instruction behind the call with the stack pointer of before, and
-- changes nothing else. The stack pointer has to be above 1, so that two bytes fit.
pub ret-call :
    (op op2 op' : ℕ) (m sub : Machine)
    → IsValid m
    → 1 < m.sp
    → KeepsFrame m.sp ((m.ip + 4) % 65536) sub
    → let back = (m.ip + 4) % 65536 in
      let called = (call op op2 m).1 in
      (called.ip ≡ op2)
      × KeepsFrame m.sp back called
      × ((ret op' sub).1 ≡ record sub { ip = back; sp = m.sp })
unfolding call
ret-call op op2 op' m sub valid h kept =
    let back = (m.ip + 4) % 65536 in
    let frame =
      push_ip-KeepsFrame (record m { ip = back }) (ip-IsValid valid back (omega arith)) h in
    (
      refl,
      record { pointer = frame.pointer; high = frame.high; low = frame.low },
      ret_lem op' m.sp back sub h valid.sp_fits (omega arith) kept,
    )

-- The same for `icall`, which takes two bytes and goes to the address in registers 15 and 14.
pub ret-icall :
    (op op' : ℕ) (m sub : Machine)
    → IsValid m
    → 1 < m.sp
    → KeepsFrame m.sp ((m.ip + 2) % 65536) sub
    → let back = (m.ip + 2) % 65536 in
      let called = (icall op m).1 in
      (called.ip ≡ pair m 14)
      × KeepsFrame m.sp back called
      × ((ret op' sub).1 ≡ record sub { ip = back; sp = m.sp })
unfolding icall
ret-icall op op' m sub valid h kept =
    let back = (m.ip + 2) % 65536 in
    let m₁ = record m { ip = back } in
    let valid₁ = ip-IsValid valid back (omega arith) in
    let frame = push_ip-KeepsFrame m₁ valid₁ h in
    let same : (push_ip m₁).reg ≡ m.reg = ap (λ n. n.reg) (push_ip_lem m₁ valid₁ h) in
    let low = valid.reg_fits 14 in
    let high = valid.reg_fits 15 in
    let wide : u16 (m.reg 15 << 8) ≡ m.reg 15 * 2 ^ 8 = omega arith in
    (
      rw (same, wide) (join_bytes_high (m.reg 14) (m.reg 15) low),
      record { pointer = frame.pointer; high = frame.high; low = frame.low },
      ret_lem op' m.sp back sub h valid.sp_fits (omega arith) kept,
    )

back_by : ℕ → ℕ
back_by k = u8 (not32 (bit_or k 0xc0)) + 1

back_table : all_below 128 (λ k. if ltb k 64 then true else back_by k == 128 - k) ≡ true
unfolding all_below back_by
back_table = refl

back_by_lem : (k : ℕ) → 64 ≤ k → k < 128 → back_by k ≡ 128 - k
back_by_lem k h hk = ground (arith, all_below_sound 128 _ back_table k hk)

sign_table : all_below 128 (λ k. digit (truth (bit_and k 0x40)) == digit (leb 64 k)) ≡ true
unfolding all_below
sign_table = refl

sign_lem : (k : ℕ) → k < 128 → truth (bit_and k 0x40) ≡ leb 64 k
sign_lem k hk = ground (arith, all_below_sound 128 _ sign_table k hk)

-- `ip` after a branch that is taken, by the offset as a signed number of seven bits.
pub branch_to_lem :
    (k ip : ℕ)
    → k < 128
    → ip < 65536
    → branch_to k ip ≡ (if ltb k 64 then (ip + k) % 65536 else (ip + 65536 + k - 128) % 65536)
unfolding branch_to back_by
branch_to_lem k ip hk hip = elim (Bool-cases (leb 64 k)) [
  | inl e ↦ rw (sign_lem k hk, e) (ground (arith, back_by_lem k))
  | inr e ↦ rw (sign_lem k hk, e) (ground arith)
]
