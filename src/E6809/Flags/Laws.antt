-- ===== src/E6809/Flags/Laws.antt =====
-- What the flag tests compute, as arithmetic. Code: emulators/e6809.c (get_cc to sign_extend).
use fuzemsys.Base.{
  ℕ, ◌+◌, ◌-◌, ◌*◌, ◌/◌, ◌%◌, ◌^◌, ◌<◌, min, max, bit_and, bit_or, bit_xor, ◌≡◌, refl, sym, ap, ◌∙◌,
  Bool, true, false, ◌==◌, ==_iff, if◌then◌else◌, all_below, all_below_sound, arith,
}
use fuzemsys.Base.Bits.{
  u32, bit, bit_not, xor_digit, bit-bit_and, bit-bit_or, bit-bit_xor, bit_and_mask, bit_and-le,
  bit_and-le_right, bit_and-short, bit_xor-digit,
}
use mathlib.Core.Path.{ap₂}
use native.Mathlib.Nat.{le_refl}
use fuzemsys.E6809.State.{Machine}
use fuzemsys.E6809.Flags.{get_cc, set_cc, test_c, test_n, fold8, test_z8, test_z16, test_v}

-- 1 for a condition that holds.
abbrev pub is : Bool → ℕ
is true = 1
is false = 0

pub test_n_lem : (r : ℕ) → test_n r ≡ bit 7 r
unfolding test_n
test_n_lem r = bit_and_mask 1 (r / 2 ^ 7)

pub bit7-bit_not : (r : ℕ) → bit 7 (bit_not r) ≡ 1 - bit 7 r
bit7-bit_not r = omega arith

abbrev pub carry_digit : ℕ → ℕ → ℕ → ℕ
carry_digit a b c = max (min (max a b) (1 - c)) (min a b)

pub test_c_lem :
    (i0 i1 r sub : ℕ)
    → sub < 2
    → test_c i0 i1 r sub ≡ xor_digit (carry_digit (bit 7 i0) (bit 7 i1) (bit 7 r)) sub
unfolding test_c
test_c_lem i0 i1 r sub h =
    let flag = bit_and (bit_or i0 i1) (bit_not r) in
    let raw : bit_and (bit_or flag (bit_and i0 i1) / 2 ^ 7) 1
        ≡ carry_digit (bit 7 i0) (bit 7 i1) (bit 7 r) =
      omega (
        arith,
        bit_and_mask 1 (bit_or flag (bit_and i0 i1) / 2 ^ 7),
        bit-bit_or 7 flag (bit_and i0 i1),
        bit-bit_and 7 (bit_or i0 i1) (bit_not r),
        bit-bit_or 7 i0 i1,
        bit-bit_and 7 i0 i1,
        bit7-bit_not r,
      ) in
    rw raw (bit_xor-digit _ sub (omega arith) h)

abbrev pub overflow_digit : ℕ → ℕ → ℕ → ℕ
overflow_digit a b c = min (1 - xor_digit a b) (xor_digit a c)

pub test_v_lem : (i0 i1 r : ℕ) → test_v i0 i1 r ≡ overflow_digit (bit 7 i0) (bit 7 i1) (bit 7 r)
unfolding test_v
test_v_lem i0 i1 r =
    let flag = bit_not (bit_xor i0 i1) in
    omega (
      arith,
      bit_and_mask 1 (bit_and flag (bit_xor i0 r) / 2 ^ 7),
      bit-bit_and 7 flag (bit_xor i0 r),
      bit7-bit_not (bit_xor i0 i1),
      bit-bit_xor 7 i0 i1,
      bit-bit_xor 7 i0 r,
    )

fold8_table : all_below 256 (λ x. fold8 x == is (x == 255)) ≡ true
unfolding all_below fold8
fold8_table = refl

pub fold8_lem : (x : ℕ) → x < 256 → fold8 x ≡ is (x == 255)
fold8_lem x h = (==_iff _ _).0 (all_below_sound 256 _ x fold8_table h)

-- Only the low digits count.
fold8-mask : (f : ℕ) → fold8 f ≡ fold8 (f % 256)
unfolding fold8
fold8-mask f =
    let low : bit_and f 15 ≡ f % 16 = bit_and_mask 4 f in
    let low' : bit_and (f % 256) 15 ≡ f % 16 = bit_and_mask 4 (f % 256) ∙ omega arith in
    let high : f / 16 % 16 ≡ f % 256 / 16 % 16 = omega arith in
    let same : bit_and (f / 16) (f % 16) ≡ bit_and (f % 256 / 16) (f % 16) =
      bit_and-short 4 (f / 16) (f % 16) (omega arith)
      ∙ ap (λ (t : ℕ). bit_and t (f % 16)) high
      ∙ sym (bit_and-short 4 (f % 256 / 16) (f % 16) (omega arith)) in
    rw (low, low', same)

pub test_z8_lem : (r : ℕ) → test_z8 r ≡ is (r % 2 ^ 8 == 0)
unfolding test_z8
test_z8_lem r = fold8-mask (bit_not r) ∙ fold8_lem (bit_not r % 256) (omega arith) ∙ ground arith

bytes_all_ones : (a b : ℕ) → a < 256 → b < 256 → is (bit_and a b == 255) ≡ is (a * 256 + b == 65535)
bytes_all_ones a b p q = ground (
  arith,
  bit_and-le a a b (le_refl a),
  bit_and-le_right a a b (le_refl a),
  λ (ha : a ≡ 255) (hb : b ≡ 255). ap₂ bit_and ha hb,
)

pub test_z16_lem : (r : ℕ) → test_z16 r ≡ is (r % 2 ^ 16 == 0)
unfolding test_z16
test_z16_lem r =
    let f = bit_not r in
    let mask : bit_and f 0xff ≡ f % 256 = bit_and_mask 8 f in
    let small : bit_and (f / 256) (f % 256) < 256 =
      omega (arith, bit_and-le_right (f / 256) (f / 256) (f % 256) (le_refl _)) in
    rw mask (
      fold8_lem (bit_and (f / 256) (f % 256)) small
      ∙ ap (λ (t : ℕ). is (t == 255)) (bit_and-short 8 (f / 256) (f % 256) (omega arith))
      ∙ bytes_all_ones (f / 256 % 256) (f % 256) (omega arith) (omega arith)
      ∙ ground arith)

cc_table :
    all_below 8 (λ j. all_below 8 (λ k. bit k (bit_not (2 ^ j)) == (if k == j then 0 else 1)))
    ≡ true
unfolding all_below
cc_table = refl

value_table :
    all_below 8 (λ j.
      all_below 8 (λ k. all_below 2 (λ v. bit k (u32 (v * 2 ^ j)) == (if k == j then v else 0))))
    ≡ true
unfolding all_below
value_table = refl

pub get_cc_lem : (k : ℕ) (s : Machine) → get_cc (2 ^ k) s ≡ bit k s.reg_cc
unfolding get_cc
get_cc_lem k s = bit_and_mask 1 (s.reg_cc / 2 ^ k)

-- Setting one condition code leaves the others alone, and the written one reads back.
pub get_cc-set_cc :
    (j k v : ℕ) (s : Machine)
    → j < 8
    → k < 8
    → v < 2
    → get_cc (2 ^ k) (set_cc (2 ^ j) v s) ≡ (if k == j then v else get_cc (2 ^ k) s)
get_cc-set_cc j k v s p q h =
    let mask = (==_iff _ _).0 (all_below_sound 8 _ k (all_below_sound 8 _ j cc_table p) q) in
    let value =
      (==_iff _ _).0
        (all_below_sound 2 _ v (all_below_sound 8 _ k (all_below_sound 8 _ j value_table p) q) h) in
    rw (get_cc_lem k (set_cc (2 ^ j) v s), get_cc_lem k s)
      (unfold set_cc in
        ground (
          arith,
          bit-bit_or k (bit_and s.reg_cc (bit_not (2 ^ j))) (u32 (v * 2 ^ j)),
          bit-bit_and k s.reg_cc (bit_not (2 ^ j)),
          mask,
          value,
        ))
