-- ===== src/Handlers/Add/Product.antt =====
-- The products of src/execute.c.
use mikode.Prelude.{
  ℕ, ◌+◌, ◌*◌, ◌/◌, ◌%◌, ◌<◌, ◌≤◌, ◌≡◌, refl, ap, arith, ◌&&◌, ◌==◌, u16, truth, bit_and, ◌>>◌,
}
use mikode.Prelude.Bits.{bit_seven, low_byte, high_byte}
use mikode.Machine.{Machine, put_flag, flag_c}
use mikode.Machine.Flags.{
  status, digit, truth-bit_and_pow, status-put_c, status-put_z, put_flag-lt, digit_of_bit,
}
use mikode.Machine.Valid.{IsValid}
use mikode.Machine.Memory.Laws.{pair}
use mikode.Handlers.Fields.{field_r, field_d}
use mikode.Handlers.Add.{mul, store_product}
use native.Mathlib.Nat.{mul-le-mul}

module _ (result : ℕ) (m : Machine) (fits : result < 65536) where
  store_product-pair : pair (store_product result m) 0 ≡ result
  unfolding store_product
  store_product-pair = ground (arith, low_byte result, high_byte result)

  store_product-flags :
      m.sreg < 256
      → status (store_product result m).sreg
        ≡ record (status m.sreg) { c = result / 32768; z = digit (result == 0) }
  unfolding store_product
  store_product-flags h =
      let high = bit_and result 0xff00 >> 8 in
      let low = bit_and result 0x00ff in
      let high_is : high ≡ result / 256 = omega (arith, high_byte result, fits) in
      let low_is : low ≡ result % 256 = low_byte result in
      let w₁ = put_flag (truth (bit_and high 0x80)) flag_c m.sreg in
      ground (
        arith,
        status-put_z (low == 0 && high == 0) w₁ (put_flag-lt _ _ _),
        status-put_c (truth (bit_and high 0x80)) m.sreg h,
        truth-bit_and_pow 7 high,
        digit_of_bit 7 high,
        bit_seven high,
      )

store_product-ip : (result : ℕ) (m : Machine) → (store_product result m).ip ≡ m.ip
unfolding store_product
store_product-ip result m = refl

product-lt : (a b : ℕ) → a < 256 → b < 256 → a * b < 65536
product-lt a b ha hb =
    let low : a ≤ 255 = omega arith in
    let high : b ≤ 255 = omega arith in
    let most : a * b ≤ 255 * 255 = mul-le-mul low high in omega arith

-- `mul` leaves the whole product of its registers in registers 1 and 0, its top bit in C, whether
-- it is 0 in Z and the other flags as they were, and goes to the next word.
pub mul-product :
    (op : ℕ) (m : Machine)
    → IsValid m
    → let p = m.reg (field_d op) * m.reg (field_r op) in
      let m' = (mul op m).1 in
      (pair m' 0 ≡ p)
      × (status m'.sreg ≡ record (status m.sreg) { c = p / 32768; z = digit (p == 0) })
      × (m'.ip ≡ (m.ip + 2) % 65536)
unfolding mul
mul-product op m valid =
    let p = m.reg (field_d op) * m.reg (field_r op) in
    let fits = product-lt _ _ (valid.reg_fits (field_d op)) (valid.reg_fits (field_r op)) in
    let whole : u16 p ≡ p = omega arith in
    (
      rw whole (store_product-pair p m fits),
      rw whole (store_product-flags p m fits valid.sreg_fits),
      ap (λ (t : ℕ). (t + 2) % 65536) (store_product-ip (u16 p) m),
    )
