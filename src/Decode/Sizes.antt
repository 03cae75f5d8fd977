-- ===== src/Decode/Sizes.antt =====
-- Which opcodes take four bytes, for the decoder and for `check_32` of src/run_misc.c, and which
-- handlers of src/execute.c no opcode reaches.
use mikode.Prelude.{
  ℕ, zero, suc, ◌+◌, ◌*◌, ◌/◌, ◌%◌, ◌<◌, ◌≡◌, refl, arith, ap, ◌∙◌, sym, ◌≢◌, Bool, true, false,
  ◌||◌, ◌&&◌, not,
}
use mikode.Prelude.{bit_and, ◌==◌, all_below, all_below_sound}
use mikode.Machine.{Machine}
use mikode.Machine.Memory.{check_32, word_at}
use mikode.Decode.{Instr, decode, decode_com_on, decode_lds_on, decode_ror_on}

-- The handlers that step over an operand word.
abbrev pub has_operand : Instr → Bool
has_operand Instr.call = true
has_operand Instr.jmp = true
has_operand Instr.lds = true
has_operand Instr.sts = true
has_operand i = false

-- The handlers that stand behind another one with the same test.
abbrev is_shadowed : Instr → Bool
is_shadowed Instr.lsl = true
is_shadowed Instr.sbr = true
is_shadowed Instr.ser = true
is_shadowed i = false

abbrev takes_four : ℕ → Bool
takes_four op =
    op == 0x940e || op == 0x940c || bit_and op 0xff0f == 0x9200 || bit_and op 0xff0f == 0x9000

abbrev same : Bool → Bool → Bool
same true b = b
same false b = not b

unfoldable as_expected : ℕ → Bool
as_expected op = same (takes_four op) (has_operand (decode op)) && not (is_shadowed (decode op))

-- The opcodes from 8192 k on.
abbrev eighth : ℕ → Bool
eighth k = all_below 32 (λ h. all_below 256 (λ l. as_expected (k * 8192 + (h * 256 + l))))

eighth_0 : eighth 0 ≡ true
unfolding all_below as_expected decode decode_com_on decode_lds_on decode_ror_on
eighth_0 = refl

eighth_1 : eighth 1 ≡ true
unfolding all_below as_expected decode decode_com_on decode_lds_on decode_ror_on
eighth_1 = refl

eighth_2 : eighth 2 ≡ true
unfolding all_below as_expected decode decode_com_on decode_lds_on decode_ror_on
eighth_2 = refl

eighth_3 : eighth 3 ≡ true
unfolding all_below as_expected decode decode_com_on decode_lds_on decode_ror_on
eighth_3 = refl

eighth_4 : eighth 4 ≡ true
unfolding all_below as_expected decode decode_com_on decode_lds_on decode_ror_on
eighth_4 = refl

eighth_5 : eighth 5 ≡ true
unfolding all_below as_expected decode decode_com_on decode_lds_on decode_ror_on
eighth_5 = refl

eighth_6 : eighth 6 ≡ true
unfolding all_below as_expected decode decode_com_on decode_lds_on decode_ror_on
eighth_6 = refl

eighth_7 : eighth 7 ≡ true
unfolding all_below as_expected decode decode_com_on decode_lds_on decode_ror_on
eighth_7 = refl

every_eighth : (k : ℕ) → k < 8 → eighth k ≡ true
every_eighth zero h = eighth_0
every_eighth (suc zero) h = eighth_1
every_eighth (suc (suc zero)) h = eighth_2
every_eighth (suc (suc (suc zero))) h = eighth_3
every_eighth (suc (suc (suc (suc zero)))) h = eighth_4
every_eighth (suc (suc (suc (suc (suc zero))))) h = eighth_5
every_eighth (suc (suc (suc (suc (suc (suc zero)))))) h = eighth_6
every_eighth (suc (suc (suc (suc (suc (suc (suc zero))))))) h = eighth_7
every_eighth (suc (suc (suc (suc (suc (suc (suc (suc k)))))))) h = absurd (omega arith)

as_expected_lem : (op : ℕ) → op < 65536 → as_expected op ≡ true
as_expected_lem op fits =
    let here = every_eighth (op / 8192) (omega arith) in
    let at_high = all_below_sound 32 _ here (op / 256 % 32) (omega arith) in
    let at_low = all_below_sound 256 _ at_high (op % 256) (omega arith) in
    let whole : op / 8192 * 8192 + (op / 256 % 32 * 256 + op % 256) ≡ op = omega arith in
    ap as_expected (sym whole) ∙ at_low

same_sound : (a b : Bool) → same a b ≡ true → a ≡ b
same_sound true true h = refl
same_sound true false h = cc
same_sound false true h = cc
same_sound false false h = refl

both : (a b : Bool) → (a && b) ≡ true → (a ≡ true) × (b ≡ true)
both true b h = (refl, h)
both false b h = cc

word_at-lt : (m : Machine) (a : ℕ) → word_at m a < 65536
unfolding word_at
word_at-lt m a = omega arith

contradicts : (false ≡ true) → ⊥
contradicts h = cc

-- A skip steps over four bytes exactly when the next instruction is one whose handler steps over
-- an operand word: call, jmp, lds or sts.
pub check_32-decode : (m : Machine) → check_32 m ≡ has_operand (decode (word_at m m.ip))
unfolding check_32 as_expected
check_32-decode m =
    same_sound _ _ ((both _ _ (as_expected_lem (word_at m m.ip) (word_at-lt m m.ip))).0)

-- No opcode reaches `lsl`, `sbr` or `ser`.
pub decode-shadowed :
    (op : ℕ)
    → op < 65536
    → (decode op ≢ Instr.lsl) × (decode op ≢ Instr.sbr) × (decode op ≢ Instr.ser)
unfolding as_expected
decode-shadowed op fits =
    let clear = (both _ _ (as_expected_lem op fits)).1 in
    (
      λ e. contradicts (ap (λ i. not (is_shadowed i)) (sym e) ∙ clear),
      λ e. contradicts (ap (λ i. not (is_shadowed i)) (sym e) ∙ clear),
      λ e. contradicts (ap (λ i. not (is_shadowed i)) (sym e) ∙ clear),
    )
