-- ===== src/Assembler/Patch/Laws.antt =====
-- What the patched fields are when src/execute.c takes them out again.
use mikode.Prelude.{ℕ, ◌+◌, ◌-◌, ◌*◌, ◌/◌, ◌%◌, ◌^◌, ◌<◌, ◌≤◌, ◌≡◌, refl, ap, ◌∙◌, arith, ◌↔◌}
use mathlib.Core.Path.{subst}
use mikode.Prelude.{sym, Bool, some, none, true, false, ◌||◌, if◌then◌else◌}
use mikode.Prelude.{bit_or, sub16, leb}
use mikode.Prelude.Bits.{bit_and_low, bit_or_high, bit_or_div, bit_or_mod, bit_or-zero}
use mikode.Handlers.Fields.{field_offset, field_bit}
use mikode.Handlers.Fields.Laws.{field_offset_lem, field_bit_lem}
use mikode.Handlers.Flow.{branch_to}
use mikode.Handlers.Flow.Laws.{branch_to_lem}
use mikode.Assembler.Patch.{Code, patch_line, branch, ltb16, minus_64}

-- An opcode with an offset put into its clear offset field.
offset_field :
    (op k : ℕ)
    → op / 8 % 128 ≡ 0
    → k < 128
    → (bit_or op (k * 2 ^ 3) / 8 % 128 ≡ k) × (bit_or op (k * 2 ^ 3) % 8 ≡ op % 8)
offset_field op k clear hk =
    let q = op / 8 / 128 in
    let above : op / 8 ≡ q * 2 ^ 7 = omega arith in
    let kept : k * 2 ^ 3 / 2 ^ 3 ≡ k = omega arith in
    let gone : k * 2 ^ 3 % 2 ^ 3 ≡ 0 = omega arith in
    let small = bit_or-zero (op % 8) 8 (omega arith) in
    (
      rw (bit_or_div 3 op (k * 2 ^ 3), kept, above, bit_or_high 7 q k hk) (omega arith),
      rw (bit_or_mod 3 op (k * 2 ^ 3), gone) small,
    )

far : ℕ → ℕ → Bool
far from to = ltb16 63 (sub16 to from) || ltb16 (sub16 to from) minus_64

far_lem :
    (from to : ℕ) → from < 65536 → to < 65536 → far from to ≡ leb 128 ((to + 65600 - from) % 65536)
unfolding far
far_lem from to hf ht = ground arith

-- A branch is refused exactly when its target is not from 64 below to 63 above, modulo 2 ^ 16.
pub branch-range :
    (from to : ℕ) (c : Code)
    → from < 65536
    → to < 65536
    → (patch_line branch from to c ≡ none) ↔ (128 ≤ (to + 65600 - from) % 65536)
unfolding patch_line far
branch-range from to c hf ht = ground (arith, far_lem from to hf ht)

back_again :
    (from to : ℕ)
    → from < 65536
    → to < 65536
    → (to + 65600 - from) % 65536 < 128
    → branch_to (sub16 to from % 128) from ≡ to
back_again from to hf ht near =
    ground (arith, branch_to_lem (sub16 to from % 128) from (omega arith) hf)

abbrev with_offset : ℕ → ℕ → Code → Code
with_offset from to c = record c { opcode = bit_or c.opcode (sub16 to from % 128 * 2 ^ 3) }

patched :
    (from to : ℕ) (c : Code)
    → patch_line branch from to c ≡ (if far from to then none else some (with_offset from to c))
unfolding patch_line far
patched from to c = rw (bit_and_low 7 (sub16 to from))

refused : (b : Bool) (c c' : Code) → (if b then none else some c) ≡ some c' → (b ≡ false) × (c ≡ c')
refused true c c' h = cc
refused false c c' h = (refl, cc)

-- What it is for a branch at `from` to lead to `to`, with the flag of `c`.
record Lands (from to : ℕ) (c c' : Code) : Type 0 where
  target : branch_to (field_offset c'.opcode) from ≡ to
  flag : field_bit c'.opcode ≡ field_bit c.opcode
  beside : c'.opextra ≡ c.opextra

with_offset-Lands :
    (from to : ℕ) (c : Code)
    → from < 65536
    → to < 65536
    → c.opcode / 8 % 128 ≡ 0
    → far from to ≡ false
    → Lands from to c (with_offset from to c)
with_offset-Lands from to c hf ht clear near =
    let fields = offset_field c.opcode (sub16 to from % 128) clear (omega arith) in
    record {
      target =
          rw (field_offset_lem (with_offset from to c).opcode, fields.0)
            (back_again from to hf ht (ground (arith, far_lem from to hf ht)));
      flag = rw (field_bit_lem (with_offset from to c).opcode, field_bit_lem c.opcode) (fields.1);
      beside = refl;
    }

-- What a branch is patched with, if it is accepted.
pub branch-accepted :
    (from to : ℕ) (c c' : Code)
    → from < 65536
    → to < 65536
    → patch_line branch from to c ≡ some c'
    → (branch_to (sub16 to from % 128) from ≡ to)
      × (c'.opcode ≡ bit_or c.opcode (sub16 to from % 128 * 2 ^ 3))
branch-accepted from to c c' hf ht h =
    let kept = refused (far from to) (with_offset from to c) c' (sym (patched from to c) ∙ h) in
    (
      back_again from to hf ht (ground (arith, kept.0, far_lem from to hf ht)),
      sym (ap (λ (x : Code). x.opcode) (kept.1)),
    )

-- A branch that is accepted lands on its label: if the opcode came with a clear offset field, the
-- patched opcode's offset leads from the address of the line to the address of the label, the
-- flag that the branch looks at is the opcode's own, and `opextra` is kept.
pub branch-lands :
    (from to : ℕ) (c c' : Code)
    → from < 65536
    → to < 65536
    → c.opcode / 8 % 128 ≡ 0
    → patch_line branch from to c ≡ some c'
    → (branch_to (field_offset c'.opcode) from ≡ to)
      × (field_bit c'.opcode ≡ field_bit c.opcode)
      × (c'.opextra ≡ c.opextra)
branch-lands from to c c' hf ht clear h =
    let kept = refused (far from to) (with_offset from to c) c' (sym (patched from to c) ∙ h) in
    let good = with_offset-Lands from to c hf ht clear (kept.0) in
    let there = subst (Lands from to c) (kept.1) good in (there.target, there.flag, there.beside)
