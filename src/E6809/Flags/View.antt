-- ===== src/E6809/Flags/View.antt =====
-- The condition codes as eight digits. Code: emulators/e6809.c (get_cc, set_cc).
use fuzemsys.Base.{ℕ, ◌^◌, ◌<◌, ◌≡◌, arith, ◌==◌, if◌then◌else◌}
use fuzemsys.E6809.State.{Machine, flag_e, flag_f, flag_h, flag_i, flag_n, flag_z, flag_v, flag_c}
use fuzemsys.E6809.Flags.{get_cc, set_cc}
use fuzemsys.E6809.Flags.Laws.{get_cc-set_cc}

pub record Cc : Type 0 where
  pub e : ℕ
  pub f : ℕ
  pub h : ℕ
  pub i : ℕ
  pub n : ℕ
  pub z : ℕ
  pub v : ℕ
  pub c : ℕ

unfoldable pub cc_of : Machine → Cc
cc_of s = record {
  e = get_cc flag_e s;
  f = get_cc flag_f s;
  h = get_cc flag_h s;
  i = get_cc flag_i s;
  n = get_cc flag_n s;
  z = get_cc flag_z s;
  v = get_cc flag_v s;
  c = get_cc flag_c s;
}

set_digit : ℕ → ℕ → Cc → Cc
set_digit j x cc = record {
  e = if 7 == j then x else cc.e;
  f = if 6 == j then x else cc.f;
  h = if 5 == j then x else cc.h;
  i = if 4 == j then x else cc.i;
  n = if 3 == j then x else cc.n;
  z = if 2 == j then x else cc.z;
  v = if 1 == j then x else cc.v;
  c = if 0 == j then x else cc.c;
}

cc_of-set_cc :
    (j x : ℕ) (s : Machine) → j < 8 → x < 2 → cc_of (set_cc (2 ^ j) x s) ≡ set_digit j x (cc_of s)
unfolding cc_of set_digit
cc_of-set_cc j x s p q = λ k. record {
  e = get_cc-set_cc j 7 x s p (omega arith) q k;
  f = get_cc-set_cc j 6 x s p (omega arith) q k;
  h = get_cc-set_cc j 5 x s p (omega arith) q k;
  i = get_cc-set_cc j 4 x s p (omega arith) q k;
  n = get_cc-set_cc j 3 x s p (omega arith) q k;
  z = get_cc-set_cc j 2 x s p (omega arith) q k;
  v = get_cc-set_cc j 1 x s p (omega arith) q k;
  c = get_cc-set_cc j 0 x s p (omega arith) q k;
}

module _ (x : ℕ) (s : Machine) (bound : x < 2) where
  pub cc_of-set_h : cc_of (set_cc flag_h x s) ≡ record (cc_of s) { h = x }
  unfolding set_digit
  cc_of-set_h = cc_of-set_cc 5 x s (omega arith) bound

  pub cc_of-set_n : cc_of (set_cc flag_n x s) ≡ record (cc_of s) { n = x }
  unfolding set_digit
  cc_of-set_n = cc_of-set_cc 3 x s (omega arith) bound

  pub cc_of-set_z : cc_of (set_cc flag_z x s) ≡ record (cc_of s) { z = x }
  unfolding set_digit
  cc_of-set_z = cc_of-set_cc 2 x s (omega arith) bound

  pub cc_of-set_v : cc_of (set_cc flag_v x s) ≡ record (cc_of s) { v = x }
  unfolding set_digit
  cc_of-set_v = cc_of-set_cc 1 x s (omega arith) bound

  pub cc_of-set_c : cc_of (set_cc flag_c x s) ≡ record (cc_of s) { c = x }
  unfolding set_digit
  cc_of-set_c = cc_of-set_cc 0 x s (omega arith) bound

  pub cc_of-set_e : cc_of (set_cc flag_e x s) ≡ record (cc_of s) { e = x }
  unfolding set_digit
  cc_of-set_e = cc_of-set_cc 7 x s (omega arith) bound

  pub cc_of-set_f : cc_of (set_cc flag_f x s) ≡ record (cc_of s) { f = x }
  unfolding set_digit
  cc_of-set_f = cc_of-set_cc 6 x s (omega arith) bound

  pub cc_of-set_i : cc_of (set_cc flag_i x s) ≡ record (cc_of s) { i = x }
  unfolding set_digit
  cc_of-set_i = cc_of-set_cc 4 x s (omega arith) bound
