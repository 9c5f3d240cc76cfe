-- ===== src/E6809/Cases/Product.antt =====
-- The multiplication. Code: emulators/e6809.c (the mul case of e6809_sstep, get_reg_d, set_reg_d).
use fuzemsys.Base.{ℕ, ◌*◌, ◌/◌, ◌%◌, ◌^◌, ◌≤◌, ◌<◌, bit_and, ◌≡◌, refl, ap, ◌∙◌, ◌==◌, arith}
use native.Mathlib.Nat.{mul-le-mul_right}
use fuzemsys.Base.Bits.{u8, u32, bit, bit_and_mask, bit_or_low}
use fuzemsys.E6809.State.{Machine, done, final, ◌>>=◌, flag_z, flag_c}
use fuzemsys.E6809.Flags.{get_cc, set_cc, get_reg_d, set_reg_d, test_z16}
use fuzemsys.E6809.Flags.Laws.{is, get_cc-set_cc, test_z16_lem}
use fuzemsys.E6809.Cases.Control.{mul}

-- A word that is put into D is read back.
get_reg_d-set_reg_d : (v : ℕ) (s : Machine) → v < 2 ^ 16 → get_reg_d (set_reg_d v s) ≡ v
unfolding get_reg_d set_reg_d
get_reg_d-set_reg_d v s h =
    let high : u32 (v / 2 ^ 8 * 2 ^ 8) ≡ v / 2 ^ 8 * 2 ^ 8 = omega arith in
    rw (high, bit_and_mask 8 v) (bit_or_low 8 (v / 2 ^ 8) (v % 2 ^ 8) (omega arith) ∙ omega arith)

product-lt : (x y : ℕ) → x < 2 ^ 8 → y < 2 ^ 8 → x * y < 2 ^ 16
product-lt x y p q = let bound : x ≤ 255 = omega arith in omega (arith, mul-le-mul_right y bound)

mul_product :
    (s : Machine) → u32 (bit_and s.reg_a 0xff * bit_and s.reg_b 0xff) ≡ u8 s.reg_a * u8 s.reg_b
mul_product s =
    let small = product-lt (u8 s.reg_a) (u8 s.reg_b) (omega arith) (omega arith) in
    rw (bit_and_mask 8 s.reg_a, bit_and_mask 8 s.reg_b) (omega (arith, small))

module _ (s : Machine) where
  abbrev product : ℕ
  product = u8 s.reg_a * u8 s.reg_b

  abbrev r : ℕ
  r = u32 (bit_and s.reg_a 0xff * bit_and s.reg_b 0xff)

  mul_d : get_reg_d (final (mul s)) ≡ r
  unfolding mul ◌>>=◌ set_cc get_reg_d
  mul_d = get_reg_d-set_reg_d r s (
      omega
        (arith, mul_product s, product-lt (u8 s.reg_a) (u8 s.reg_b) (omega arith) (omega arith)))

  carry : bit_and (r / 2 ^ 7) 1 ≡ bit 7 r
  carry = bit_and_mask 1 (r / 2 ^ 7)

  mul_z : get_cc flag_z (final (mul s)) ≡ test_z16 r
  unfolding mul ◌>>=◌ get_cc
  mul_z =
      get_cc-set_cc 0 2 (bit_and (r / 2 ^ 7) 1) _ (omega arith) (omega arith) (omega (arith, carry))
      ∙ get_cc-set_cc 2 2 (test_z16 r) _ (omega arith) (omega arith)
          (ground (arith, test_z16_lem r))

  mul_c : get_cc flag_c (final (mul s)) ≡ bit 7 r
  unfolding mul ◌>>=◌ get_cc
  mul_c =
      get_cc-set_cc 0 0 (bit_and (r / 2 ^ 7) 1) _ (omega arith) (omega arith) (omega (arith, carry))
      ∙ carry

-- mul ends with the product of the low bytes of A and B in D, Z set when it is 0, and C its bit 7.
pub mul_lem :
    (s : Machine)
    → let t = final (mul s) in
      let product = u8 s.reg_a * u8 s.reg_b in
      (mul s ≡ done tt t)
      × (get_reg_d t ≡ product)
      × (get_cc flag_z t ≡ is (product == 0))
      × (get_cc flag_c t ≡ bit 7 product)
unfolding mul ◌>>=◌
mul_lem s =
    let small = product-lt (u8 s.reg_a) (u8 s.reg_b) (omega arith) (omega arith) in
    (
      refl,
      mul_d s ∙ mul_product s,
      mul_z s ∙ rw (mul_product s) (test_z16_lem (u8 s.reg_a * u8 s.reg_b) ∙ ground (arith, small)),
      mul_c s ∙ ap (λ (n : ℕ). bit 7 n) (mul_product s),
    )
