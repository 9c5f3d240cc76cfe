-- ===== src/E6809/Alu/Words.antt =====
-- The 16-bit addition and subtraction against arithmetic on words.
-- Code: emulators/e6809.c (inst_add16, inst_sub16, inst_tst16).
use fuzemsys.Base.{ℕ, ◌+◌, ◌-◌, ◌/◌, ◌%◌, ◌^◌, ◌<◌, ◌≡◌, refl, ◌∙◌, not, leb, ltb, ◌==◌, arith}
use fuzemsys.Base.Bits.{bit, bit_not, u16, u32}
use fuzemsys.Base.Int.{signed16, fits16, ◌+ℤ◌, ◌-ℤ◌}
use fuzemsys.E6809.State.{Machine}
use fuzemsys.E6809.Flags.{test_c, test_n, test_z16, test_v}
use fuzemsys.E6809.Flags.Laws.{
  is, carry_digit, overflow_digit, test_c_lem, test_n_lem, test_v_lem, test_z16_lem,
}
use fuzemsys.E6809.Flags.View.{Cc, cc_of, cc_of-set_n, cc_of-set_z, cc_of-set_v, cc_of-set_c}
use fuzemsys.E6809.Alu.{set_nzvc16, inst_add16, inst_sub16}

carry_of_sum :
    (x y c : ℕ)
    → x < 0x10000
    → y < 0x10000
    → c < 2
    → carry_digit (bit 15 x) (bit 15 y) (bit 15 (x + y + c)) ≡ (x + y + c) / 0x10000
carry_of_sum x y c p q h = omega arith

overflow_of_sum :
    (x y : ℕ)
    → x < 0x10000
    → y < 0x10000
    → overflow_digit (bit 15 x) (bit 15 y) (bit 15 (x + y))
      ≡ is (not (fits16 (signed16 x +ℤ signed16 y)))
overflow_of_sum x y p q = ground arith

overflow_of_difference :
    (x y : ℕ)
    → x < 0x10000
    → y < 0x10000
    → overflow_digit (bit 15 x) (1 - bit 15 y) (bit 15 (x + 0xffff - y + 1))
      ≡ is (not (fits16 (signed16 x -ℤ signed16 y)))
overflow_of_difference x y p q = ground arith

cc_of-set_nzvc16 :
    (i0 i1 r sub : ℕ) (s : Machine)
    → sub < 2
    → cc_of (set_nzvc16 i0 i1 r sub s) ≡ record (cc_of s) {
      n = test_n (r / 2 ^ 8);
      z = test_z16 r;
      v = test_v (i0 / 2 ^ 8) (i1 / 2 ^ 8) (r / 2 ^ 8);
      c = test_c (i0 / 2 ^ 8) (i1 / 2 ^ 8) (r / 2 ^ 8) sub;
    }
unfolding set_nzvc16
cc_of-set_nzvc16 i0 i1 r sub s h =
    let a = i0 / 2 ^ 8 in
    let b = i1 / 2 ^ 8 in
    let d = r / 2 ^ 8 in
    rw
      (
        cc_of-set_c (test_c a b d sub) _ (omega (arith, test_c_lem a b d sub h)),
        cc_of-set_v (test_v a b d) _ (omega (arith, test_v_lem a b d)),
        cc_of-set_z (test_z16 r) _ (ground (arith, test_z16_lem r)),
        cc_of-set_n (test_n d) _ (omega (arith, test_n_lem d)),
      )
      refl

-- What a 16-bit sum leaves.
abbrev pub sum_flags16 : ℕ → ℕ → Cc → Cc
sum_flags16 x y cc = record cc {
  n = is (leb 0x8000 (u16 (x + y)));
  z = is (u16 (x + y) == 0);
  v = is (not (fits16 (signed16 x +ℤ signed16 y)));
  c = is (leb 0x10000 (x + y));
}

-- What a 16-bit difference leaves.
abbrev pub diff_flags16 : ℕ → ℕ → Cc → Cc
diff_flags16 x y cc = record cc {
  n = is (leb 0x8000 (u16 (x + 0x10000 - y)));
  z = is (u16 (x + 0x10000 - y) == 0);
  v = is (not (fits16 (signed16 x -ℤ signed16 y)));
  c = is (ltb x y);
}

module _ (x y : ℕ) where
  test_c-sum16 :
      test_c (x / 2 ^ 8) (y / 2 ^ 8) (u32 (x + y) / 2 ^ 8) 0 ≡ is (leb 0x10000 (u16 x + u16 y))
  test_c-sum16 =
      let carry = test_c_lem (x / 2 ^ 8) (y / 2 ^ 8) (u32 (x + y) / 2 ^ 8) 0 (omega arith) in
      let dx : bit 7 (x / 2 ^ 8) ≡ bit 15 (u16 x) = omega arith in
      let dy : bit 7 (y / 2 ^ 8) ≡ bit 15 (u16 y) = omega arith in
      let dr : bit 7 (u32 (x + y) / 2 ^ 8) ≡ bit 15 (u16 x + u16 y + 0) = omega arith in
      let out = carry_of_sum (u16 x) (u16 y) 0 (omega arith) (omega arith) (omega arith) in
      rw (carry, dx, dy, dr, out) (ground arith)

  test_v-sum16 :
      test_v (x / 2 ^ 8) (y / 2 ^ 8) (u32 (x + y) / 2 ^ 8)
      ≡ is (not (fits16 (signed16 (u16 x) +ℤ signed16 (u16 y))))
  test_v-sum16 =
      let over = test_v_lem (x / 2 ^ 8) (y / 2 ^ 8) (u32 (x + y) / 2 ^ 8) in
      let dx : bit 7 (x / 2 ^ 8) ≡ bit 15 (u16 x) = omega arith in
      let dy : bit 7 (y / 2 ^ 8) ≡ bit 15 (u16 y) = omega arith in
      let dr : bit 7 (u32 (x + y) / 2 ^ 8) ≡ bit 15 (u16 x + u16 y) = omega arith in
      rw (over, dx, dy, dr) (overflow_of_sum (u16 x) (u16 y) (omega arith) (omega arith))

  test_c-difference16 :
      test_c (x / 2 ^ 8) (bit_not y / 2 ^ 8) (u32 (x + bit_not y + 1) / 2 ^ 8) 1
      ≡ is (ltb (u16 x) (u16 y))
  test_c-difference16 =
      let r = u32 (x + bit_not y + 1) / 2 ^ 8 in
      let carry = test_c_lem (x / 2 ^ 8) (bit_not y / 2 ^ 8) r 1 (omega arith) in
      let dx : bit 7 (x / 2 ^ 8) ≡ bit 15 (u16 x) = omega arith in
      let dy : bit 7 (bit_not y / 2 ^ 8) ≡ bit 15 (0xffff - u16 y) = omega arith in
      let dr : bit 7 r ≡ bit 15 (u16 x + (0xffff - u16 y) + 1) = omega arith in
      let out = carry_of_sum (u16 x) (0xffff - u16 y) 1 (omega arith) (omega arith) (omega arith) in
      rw (carry, dx, dy, dr, out) (ground arith)

  test_v-difference16 :
      test_v (x / 2 ^ 8) (bit_not y / 2 ^ 8) (u32 (x + bit_not y + 1) / 2 ^ 8)
      ≡ is (not (fits16 (signed16 (u16 x) -ℤ signed16 (u16 y))))
  test_v-difference16 =
      let r = u32 (x + bit_not y + 1) / 2 ^ 8 in
      let over = test_v_lem (x / 2 ^ 8) (bit_not y / 2 ^ 8) r in
      let dx : bit 7 (x / 2 ^ 8) ≡ bit 15 (u16 x) = omega arith in
      let dy : bit 7 (bit_not y / 2 ^ 8) ≡ 1 - bit 15 (u16 y) = omega arith in
      let dr : bit 7 r ≡ bit 15 (u16 x + 0xffff - u16 y + 1) = omega arith in
      rw (over, dx, dy, dr) (overflow_of_difference (u16 x) (u16 y) (omega arith) (omega arith))

-- inst_add16 adds the two words modulo 2 ^ 16, sets N, Z, V and C as that sum of words demands,
-- and leaves E, F, H and I alone.
pub inst_add16_lem :
    (data0 data1 : ℕ) (s : Machine)
    → let (r, s') = inst_add16 data0 data1 s in
      (u16 r ≡ u16 (u16 data0 + u16 data1))
      × (cc_of s' ≡ sum_flags16 (u16 data0) (u16 data1) (cc_of s))
unfolding inst_add16
inst_add16_lem x y s = (
  omega arith,
  cc_of-set_nzvc16 x y (u32 (x + y)) 0 s (omega arith) ∙ λ j. record {
    e = (cc_of s).e;
    f = (cc_of s).f;
    h = (cc_of s).h;
    i = (cc_of s).i;
    n = (test_n_lem (u32 (x + y) / 2 ^ 8) ∙ negative) j;
    z = (test_z16_lem (u32 (x + y)) ∙ zero) j;
    v = test_v-sum16 x y j;
    c = test_c-sum16 x y j;
  },
)
  where
    negative : bit 7 (u32 (x + y) / 2 ^ 8) ≡ is (leb 0x8000 (u16 (u16 x + u16 y)))
    negative = ground arith

    zero : is (u32 (x + y) % 2 ^ 16 == 0) ≡ is (u16 (u16 x + u16 y) == 0)
    zero = ground arith

-- inst_sub16, which also compares, subtracts the words modulo 2 ^ 16. N and Z are those of the
-- difference, V tells that the signed difference does not fit a word, and C is the borrow.
-- E, F, H and I stay.
pub inst_sub16_lem :
    (data0 data1 : ℕ) (s : Machine)
    → let (r, s') = inst_sub16 data0 data1 s in
      (u16 r ≡ u16 (u16 data0 + 0x10000 - u16 data1))
      × (cc_of s' ≡ diff_flags16 (u16 data0) (u16 data1) (cc_of s))
unfolding inst_sub16
inst_sub16_lem x y s = (
  omega arith,
  cc_of-set_nzvc16 x (bit_not y) (u32 (x + bit_not y + 1)) 1 s (omega arith) ∙ λ j. record {
    e = (cc_of s).e;
    f = (cc_of s).f;
    h = (cc_of s).h;
    i = (cc_of s).i;
    n = (test_n_lem (u32 (x + bit_not y + 1) / 2 ^ 8) ∙ negative) j;
    z = (test_z16_lem (u32 (x + bit_not y + 1)) ∙ zero) j;
    v = test_v-difference16 x y j;
    c = test_c-difference16 x y j;
  },
)
  where
    negative :
        bit 7 (u32 (x + bit_not y + 1) / 2 ^ 8) ≡ is (leb 0x8000 (u16 (u16 x + 0x10000 - u16 y)))
    negative = ground arith

    zero : is (u32 (x + bit_not y + 1) % 2 ^ 16 == 0) ≡ is (u16 (u16 x + 0x10000 - u16 y) == 0)
    zero = ground arith
