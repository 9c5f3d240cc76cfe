-- ===== src/E6809/Cases/Compare.antt =====
-- A comparison, and the branches that read its flags. Code: emulators/e6809.c (inst_sub8, inst_sub16,
-- inst_bra8, and the branch cases of e6809_sstep).
use fuzemsys.Base.{
  ℕ, ◌+◌, ◌-◌, ◌%◌, ◌<◌, max, ◌≡◌, refl, ap, ◌∙◌, not, leb, ltb, ◌==◌, arith, if◌then◌else◌, Bool,
  false, bit_or, bit_xor,
}
use fuzemsys.Base.Bits.{u8, u16, u32, xor_digit, bit_or-digit, bit_xor-digit}
use fuzemsys.Base.Int.{signed8, signed16, fits8, fits16, ltb_ℤ, leb_ℤ, ◌-ℤ◌, pos}
use fuzemsys.E6809.State.{Machine, done, ◌>>=◌}
use fuzemsys.E6809.Bus.{read8}
use fuzemsys.E6809.Flags.Laws.{is}
use fuzemsys.E6809.Flags.View.{Cc, cc_of}
use fuzemsys.E6809.Alu.{inst_sub8, inst_sub16}
use fuzemsys.E6809.Alu.Sums.{diff_flags}
use fuzemsys.E6809.Alu.Words.{diff_flags16, inst_sub16_lem}
use fuzemsys.E6809.Alu.Bytes.{inst_sub8_lem}
use fuzemsys.E6809.Stack.Branch.{extended, inst_bra8_lem}
use fuzemsys.E6809.Cases.Control.{
  Test, always, higher, carry, zero_flag, overflow, negative, less, less_or_equal, branch_test,
  bra8,
}

-- What each test says of two bytes that were compared: the odd op code of its pair branches then,
-- and the even one otherwise.
abbrev pub compares8 : Test → ℕ → ℕ → Bool
compares8 always x y = false
compares8 higher x y = leb x y
compares8 carry x y = ltb x y
compares8 zero_flag x y = x == y
compares8 overflow x y = not (fits8 (signed8 x -ℤ signed8 y))
compares8 negative x y = leb 128 (u8 (x + 256 - y))
compares8 less x y = ltb_ℤ (signed8 x) (signed8 y)
compares8 less_or_equal x y = leb_ℤ (signed8 x) (signed8 y)

abbrev pub compares16 : Test → ℕ → ℕ → Bool
compares16 always x y = false
compares16 higher x y = leb x y
compares16 carry x y = ltb x y
compares16 zero_flag x y = x == y
compares16 overflow x y = not (fits16 (signed16 x -ℤ signed16 y))
compares16 negative x y = leb 0x8000 (u16 (x + 0x10000 - y))
compares16 less x y = ltb_ℤ (signed16 x) (signed16 y)
compares16 less_or_equal x y = leb_ℤ (signed16 x) (signed16 y)

-- The tests as arithmetic on the view.
test_digit : Test → Cc → ℕ
test_digit always cc = 0
test_digit higher cc = bit_or cc.c cc.z
test_digit carry cc = cc.c
test_digit zero_flag cc = cc.z
test_digit overflow cc = cc.v
test_digit negative cc = cc.n
test_digit less cc = bit_xor cc.n cc.v
test_digit less_or_equal cc = bit_or cc.z (bit_xor cc.n cc.v)

branch_test-view : (t : Test) (s : Machine) → branch_test t s ≡ test_digit t (cc_of s)
unfolding branch_test test_digit cc_of
branch_test-view always s = refl
branch_test-view higher s = refl
branch_test-view carry s = refl
branch_test-view zero_flag s = refl
branch_test-view overflow s = refl
branch_test-view negative s = refl
branch_test-view less s = refl
branch_test-view less_or_equal s = refl

or_is : (p q : Bool) → bit_or (is p) (is q) ≡ max (is p) (is q)
or_is p q = bit_or-digit (is p) (is q) (ground arith) (ground arith)

xor_is : (p q : Bool) → bit_xor (is p) (is q) ≡ xor_digit (is p) (is q)
xor_is p q = bit_xor-digit (is p) (is q) (ground arith) (ground arith)

module _ (x y : ℕ) (hx : x < 256) (hy : y < 256) (cc : Cc) where
  abbrev n8 : Bool
  n8 = leb 128 (u8 (x + 256 - y - 0))

  abbrev z8 : Bool
  z8 = u8 (x + 256 - y - 0) == 0

  abbrev v8 : Bool
  v8 = not (fits8 (signed8 x -ℤ signed8 y -ℤ pos 0))

  less_digits : xor_digit (is n8) (is v8) ≡ is (ltb_ℤ (signed8 x) (signed8 y))
  less_digits = ground arith

  less_or_equal_digits :
      max (is z8) (is (ltb_ℤ (signed8 x) (signed8 y))) ≡ is (leb_ℤ (signed8 x) (signed8 y))
  less_or_equal_digits = ground arith

  test_digit-diff : (t : Test) → test_digit t (diff_flags x y 0 cc) ≡ is (compares8 t x y)
  unfolding test_digit
  test_digit-diff always = refl
  test_digit-diff higher = or_is (ltb x (y + 0)) z8 ∙ ground arith
  test_digit-diff carry = ground arith
  test_digit-diff zero_flag = ground arith
  test_digit-diff overflow = ground arith
  test_digit-diff negative = ground arith
  test_digit-diff less = xor_is n8 v8 ∙ less_digits
  test_digit-diff less_or_equal =
      rw (xor_is n8 v8, less_digits)
        (or_is z8 (ltb_ℤ (signed8 x) (signed8 y)) ∙ less_or_equal_digits)

-- After inst_sub8, as cmpa, cmpb, suba and subb run it, each branch test is 1 exactly when the
-- comparison that it stands for holds of the two bytes: unsigned for higher and carry, signed for
-- less and less_or_equal.
pub branch_test-inst_sub8 :
    (t : Test) (data0 data1 : ℕ) (s : Machine)
    → branch_test t (inst_sub8 data0 data1 s).1 ≡ is (compares8 t (u8 data0) (u8 data1))
branch_test-inst_sub8 t data0 data1 s =
    branch_test-view t (inst_sub8 data0 data1 s).1
    ∙ ap (test_digit t) (inst_sub8_lem data0 data1 s).1
    ∙ test_digit-diff (u8 data0) (u8 data1) (omega arith) (omega arith) (cc_of s) t

module _ (x y : ℕ) (hx : x < 0x10000) (hy : y < 0x10000) (cc : Cc) where
  abbrev n16 : Bool
  n16 = leb 0x8000 (u16 (x + 0x10000 - y))

  abbrev z16 : Bool
  z16 = u16 (x + 0x10000 - y) == 0

  abbrev v16 : Bool
  v16 = not (fits16 (signed16 x -ℤ signed16 y))

  less_digits16 : xor_digit (is n16) (is v16) ≡ is (ltb_ℤ (signed16 x) (signed16 y))
  less_digits16 = ground arith

  less_or_equal_digits16 :
      max (is z16) (is (ltb_ℤ (signed16 x) (signed16 y))) ≡ is (leb_ℤ (signed16 x) (signed16 y))
  less_or_equal_digits16 = ground arith

  test_digit-diff16 : (t : Test) → test_digit t (diff_flags16 x y cc) ≡ is (compares16 t x y)
  unfolding test_digit
  test_digit-diff16 always = refl
  test_digit-diff16 higher = or_is (ltb x y) z16 ∙ ground arith
  test_digit-diff16 carry = refl
  test_digit-diff16 zero_flag = ground arith
  test_digit-diff16 overflow = refl
  test_digit-diff16 negative = refl
  test_digit-diff16 less = xor_is n16 v16 ∙ less_digits16
  test_digit-diff16 less_or_equal =
      rw (xor_is n16 v16, less_digits16)
        (or_is z16 (ltb_ℤ (signed16 x) (signed16 y)) ∙ less_or_equal_digits16)

-- The same after inst_sub16, as cmpd, cmpx, cmpy, cmpu, cmps and subd run it, for two words.
pub branch_test-inst_sub16 :
    (t : Test) (data0 data1 : ℕ) (s : Machine)
    → branch_test t (inst_sub16 data0 data1 s).1 ≡ is (compares16 t (u16 data0) (u16 data1))
branch_test-inst_sub16 t data0 data1 s =
    branch_test-view t (inst_sub16 data0 data1 s).1
    ∙ ap (test_digit t) (inst_sub16_lem data0 data1 s).1
    ∙ test_digit-diff16 (u16 data0) (u16 data1) (omega arith) (omega arith) (cc_of s) t

-- A short branch after a comparison of bytes goes to its target, the next address plus the signed
-- offset byte modulo 2 ^ 16, exactly when the comparison agrees with the low bit of its op code; else it
-- goes to the next address. It counts 3 cycles and changes nothing else.
pub bra8-inst_sub8 :
    (t : Test) (op data0 data1 : ℕ) (s : Machine)
    → let s' = (inst_sub8 data0 data1 s).1 in
      bra8 t op s'
      ≡ done tt (record s' {
        reg_pc =
            if is (compares8 t (u8 data0) (u8 data1)) == op % 2
            then u16 (u16 (s'.reg_pc + 1) + extended (u8 (read8 s'.reg_pc s')))
            else u16 (s'.reg_pc + 1);
        cycles = u32 (s'.cycles + 3);
      })
unfolding bra8 ◌>>=◌
bra8-inst_sub8 t op data0 data1 s = rw (branch_test-inst_sub8 t data0 data1 s) (
    inst_bra8_lem (is (compares8 t (u8 data0) (u8 data1))) op (inst_sub8 data0 data1 s).1
      (is-lt (compares8 t (u8 data0) (u8 data1))))
  where
    is-lt : (b : Bool) → is b < 2
    is-lt b = ground arith
