-- ===== src/E6809/Alu/Sums.antt =====
-- The flags of an 8-bit sum and of an 8-bit difference, against arithmetic on bytes.
-- Code: emulators/e6809.c (the flag lines of inst_neg, inst_sub8, inst_sbc, inst_adc, inst_add8).
use fuzemsys.Base.{ℕ, ◌+◌, ◌-◌, ◌%◌, ◌<◌, ◌≡◌, refl, ◌∙◌, not, leb, ltb, ◌==◌, arith}
use fuzemsys.Base.Bits.{bit, bit_not, u8, u32}
use fuzemsys.Base.Int.{signed8, fits8, ◌+ℤ◌, ◌-ℤ◌, pos}
use fuzemsys.E6809.State.{Machine}
use fuzemsys.E6809.Flags.{test_c, test_n, test_z8, test_v}
use fuzemsys.E6809.Flags.Laws.{is, test_c_lem, test_n_lem, test_v_lem, test_z8_lem}
use fuzemsys.E6809.Flags.View.{
  Cc, cc_of, cc_of-set_h, cc_of-set_n, cc_of-set_z, cc_of-set_v, cc_of-set_c,
}
use fuzemsys.E6809.Alu.{shl4, set_hnzvc}
use fuzemsys.E6809.Alu.Digits.{
  carry_of_sum, half_carry_of_sum, overflow_of_sum, overflow_of_difference,
}

test_c-lt : (i0 i1 r sub : ℕ) → sub < 2 → test_c i0 i1 r sub < 2
test_c-lt i0 i1 r sub h = omega (arith, test_c_lem i0 i1 r sub h)

-- The flags that the five set_cc leave, each from its test.
cc_of-set_hnzvc :
    (i0 i1 r sub : ℕ) (s : Machine)
    → sub < 2
    → cc_of (set_hnzvc i0 i1 r sub s) ≡ record (cc_of s) {
      h = test_c (shl4 i0) (shl4 i1) (shl4 r) 0;
      n = test_n r;
      z = test_z8 r;
      v = test_v i0 i1 r;
      c = test_c i0 i1 r sub;
    }
unfolding set_hnzvc
cc_of-set_hnzvc i0 i1 r sub s h =
    rw
      (
        cc_of-set_c (test_c i0 i1 r sub) _ (test_c-lt i0 i1 r sub h),
        cc_of-set_v (test_v i0 i1 r) _ (omega (arith, test_v_lem i0 i1 r)),
        cc_of-set_z (test_z8 r) _ (ground (arith, test_z8_lem r)),
        cc_of-set_n (test_n r) _ (omega (arith, test_n_lem r)),
        cc_of-set_h (test_c (shl4 i0) (shl4 i1) (shl4 r) 0) _ (test_c-lt _ _ _ 0 (omega arith)),
      )
      refl

-- What an 8-bit sum `x + y + k` leaves, for bytes x and y and a carry-in k.
abbrev pub sum_flags : ℕ → ℕ → ℕ → Cc → Cc
sum_flags x y k cc = record cc {
  h = is (leb 16 (x % 16 + y % 16 + k));
  n = is (leb 128 (u8 (x + y + k)));
  z = is (u8 (x + y + k) == 0);
  v = is (not (fits8 (signed8 x +ℤ signed8 y +ℤ pos k)));
  c = is (leb 256 (x + y + k));
}

module _ (i0 i1 k : ℕ) (bound : k < 2) where
  pub test_c-sum : test_c i0 i1 (u32 (i0 + i1 + k)) 0 ≡ is (leb 256 (u8 i0 + u8 i1 + k))
  test_c-sum =
      let sum = u8 i0 + u8 i1 + k in
      let carry = test_c_lem i0 i1 (u32 (i0 + i1 + k)) 0 (omega arith) in
      let d0 : bit 7 i0 ≡ bit 7 (u8 i0) = omega arith in
      let d1 : bit 7 i1 ≡ bit 7 (u8 i1) = omega arith in
      let dr : bit 7 (u32 (i0 + i1 + k)) ≡ bit 7 sum = omega arith in
      let out = carry_of_sum (u8 i0) (u8 i1) k (omega arith) (omega arith) bound in
      rw (carry, d0, d1, dr, out) (ground arith)

  test_c-half_sum :
      test_c (shl4 i0) (shl4 i1) (shl4 (u32 (i0 + i1 + k))) 0
      ≡ is (leb 16 (u8 i0 % 16 + u8 i1 % 16 + k))
  test_c-half_sum =
      let sum = i0 % 16 + i1 % 16 + k in
      let carry = test_c_lem (shl4 i0) (shl4 i1) (shl4 (u32 (i0 + i1 + k))) 0 (omega arith) in
      let d0 : bit 7 (shl4 i0) ≡ bit 3 (i0 % 16) = omega arith in
      let d1 : bit 7 (shl4 i1) ≡ bit 3 (i1 % 16) = omega arith in
      let dr : bit 7 (shl4 (u32 (i0 + i1 + k))) ≡ bit 3 sum = omega arith in
      let out = half_carry_of_sum (i0 % 16) (i1 % 16) k (omega arith) (omega arith) bound in
      rw (carry, d0, d1, dr, out) (ground arith)

  pub test_v-sum :
      test_v i0 i1 (u32 (i0 + i1 + k))
      ≡ is (not (fits8 (signed8 (u8 i0) +ℤ signed8 (u8 i1) +ℤ pos k)))
  test_v-sum =
      let sum = u8 i0 + u8 i1 + k in
      let over = test_v_lem i0 i1 (u32 (i0 + i1 + k)) in
      let d0 : bit 7 i0 ≡ bit 7 (u8 i0) = omega arith in
      let d1 : bit 7 i1 ≡ bit 7 (u8 i1) = omega arith in
      let dr : bit 7 (u32 (i0 + i1 + k)) ≡ bit 7 sum = omega arith in
      rw (over, d0, d1, dr) (overflow_of_sum (u8 i0) (u8 i1) k (omega arith) (omega arith) bound)

  pub test_n-sum : test_n (u32 (i0 + i1 + k)) ≡ is (leb 128 (u8 (u8 i0 + u8 i1 + k)))
  test_n-sum = test_n_lem (u32 (i0 + i1 + k)) ∙ ground arith

  pub test_z8-sum : test_z8 (u32 (i0 + i1 + k)) ≡ is (u8 (u8 i0 + u8 i1 + k) == 0)
  test_z8-sum = test_z8_lem (u32 (i0 + i1 + k)) ∙ ground arith

  pub cc_of-sum :
      (s : Machine)
      → cc_of (set_hnzvc i0 i1 (u32 (i0 + i1 + k)) 0 s) ≡ sum_flags (u8 i0) (u8 i1) k (cc_of s)
  cc_of-sum s = cc_of-set_hnzvc i0 i1 (u32 (i0 + i1 + k)) 0 s (omega arith) ∙ λ j. record {
    e = (cc_of s).e;
    f = (cc_of s).f;
    h = test_c-half_sum j;
    i = (cc_of s).i;
    n = test_n-sum j;
    z = test_z8-sum j;
    v = test_v-sum j;
    c = test_c-sum j;
  }

-- What an 8-bit difference `x - y - b` leaves, for bytes x and y and a borrow b.
abbrev pub diff_flags : ℕ → ℕ → ℕ → Cc → Cc
diff_flags x y b cc = record cc {
  h = is (leb (y % 16 + b) (x % 16));
  n = is (leb 128 (u8 (x + 256 - y - b)));
  z = is (u8 (x + 256 - y - b) == 0);
  v = is (not (fits8 (signed8 x -ℤ signed8 y -ℤ pos b)));
  c = is (ltb x (y + b));
}

test_c-borrow : (i0 i1 r : ℕ) → test_c i0 i1 r 1 ≡ 1 - test_c i0 i1 r 0
test_c-borrow i0 i1 r =
    omega (arith, test_c_lem i0 i1 r 1 (omega arith), test_c_lem i0 i1 r 0 (omega arith))

module _ (x y k b : ℕ) (borrow : k + b ≡ 1) where
  test_v-difference :
      test_v x (bit_not y) (u32 (x + bit_not y + k))
      ≡ is (not (fits8 (signed8 (u8 x) -ℤ signed8 (u8 y) -ℤ pos b)))
  test_v-difference =
      let over = test_v_lem x (bit_not y) (u32 (x + bit_not y + k)) in
      let dx : bit 7 x ≡ bit 7 (u8 x) = omega arith in
      let dy : bit 7 (bit_not y) ≡ 1 - bit 7 (u8 y) = omega arith in
      let dr : bit 7 (u32 (x + bit_not y + k)) ≡ bit 7 (u8 x + 255 - u8 y + k) = omega arith in
      rw (over, dx, dy, dr)
        (overflow_of_difference (u8 x) (u8 y) k b (omega arith) (omega arith) borrow)

  test_c-difference : test_c x (bit_not y) (u32 (x + bit_not y + k)) 1 ≡ is (ltb (u8 x) (u8 y + b))
  test_c-difference =
      test_c-borrow x (bit_not y) (u32 (x + bit_not y + k))
      ∙ ground (arith, test_c-sum x (bit_not y) k (omega arith))

  test_c-half_difference :
      test_c (shl4 x) (shl4 (bit_not y)) (shl4 (u32 (x + bit_not y + k))) 0
      ≡ is (leb (u8 y % 16 + b) (u8 x % 16))
  test_c-half_difference = test_c-half_sum x (bit_not y) k (omega arith) ∙ ground arith

  test_n-difference : test_n (u32 (x + bit_not y + k)) ≡ is (leb 128 (u8 (u8 x + 256 - u8 y - b)))
  test_n-difference = test_n-sum x (bit_not y) k (omega arith) ∙ ground arith

  test_z8-difference : test_z8 (u32 (x + bit_not y + k)) ≡ is (u8 (u8 x + 256 - u8 y - b) == 0)
  test_z8-difference = test_z8-sum x (bit_not y) k (omega arith) ∙ ground arith

  pub cc_of-difference :
      (s : Machine)
      → cc_of (set_hnzvc x (bit_not y) (u32 (x + bit_not y + k)) 1 s)
        ≡ diff_flags (u8 x) (u8 y) b (cc_of s)
  cc_of-difference s =
      cc_of-set_hnzvc x (bit_not y) (u32 (x + bit_not y + k)) 1 s (omega arith) ∙ λ j. record {
        e = (cc_of s).e;
        f = (cc_of s).f;
        h = test_c-half_difference j;
        i = (cc_of s).i;
        n = test_n-difference j;
        z = test_z8-difference j;
        v = test_v-difference j;
        c = test_c-difference j;
      }
