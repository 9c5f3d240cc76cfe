-- ===== src/E6809/Valid/Alu.antt =====
-- The invariant over the instructions on operands.
-- Code: emulators/e6809.c (set_cc, set_reg_d, inst_neg to inst_sub16).
use fuzemsys.Base.{ℕ, ◌*◌, ◌/◌, bit_and, bit_or, arith}
use native.Mathlib.Nat.{le_refl}
use fuzemsys.Base.Bits.{u32, bit_not, bit_and-le, bit_or-lt, bit_xor-lt}
use fuzemsys.E6809.State.{Machine, Pointer, to_x, to_y, to_u, to_s, load, store}
use fuzemsys.E6809.Flags.{set_cc, get_reg_d, set_reg_d, sign_extend}
use fuzemsys.E6809.Flags.Laws.{get_cc_lem}
use fuzemsys.E6809.Stack.Branch.{sign_extend_lem}
use fuzemsys.E6809.Alu.{
  set_hnzvc, set_nzvc16, inst_neg, inst_com, inst_lsr, inst_ror, inst_asr, inst_asl, inst_rol,
  inst_dec, inst_inc, inst_tst8, inst_tst16, inst_clr, inst_sub8, inst_sbc, inst_and, inst_eor,
  inst_adc, inst_or, inst_add8, inst_add16, inst_sub16,
}
use fuzemsys.E6809.Cases.{Inst1, Inst2, Acc, acc_a, acc_b, get_acc, set_acc}
use fuzemsys.E6809.Valid.{IsValid, Word}

pub bit_and-Word : (x y : ℕ) → Word x → Word (bit_and x y)
bit_and-Word x y h = omega (arith, bit_and-le x x y (le_refl x))

pub bit_or-Word : (x y : ℕ) → Word x → Word y → Word (bit_or x y)
bit_or-Word x y p q = bit_or-lt 32 x y p q

pub set_cc-IsValid : (flag v : ℕ) (s : Machine) → IsValid s → IsValid (set_cc flag v s)
unfolding set_cc
set_cc-IsValid flag v s h = record {
  words =
      let cc : Word (bit_or (bit_and s.reg_cc (bit_not flag)) (u32 (v * flag))) =
        bit_or-Word _ _ (bit_and-Word s.reg_cc (bit_not flag) h.words.cc_word) (omega arith) in
      omega arith;
  bytes = h.bytes;
}

pub get_reg_d-Word : (s : Machine) → IsValid s → Word (get_reg_d s)
unfolding get_reg_d
get_reg_d-Word s h = bit_or-Word _ _ (omega arith) (bit_and-Word s.reg_b 0xff h.words.b_word)

pub set_reg_d-IsValid : (v : ℕ) → Word v → (s : Machine) → IsValid s → IsValid (set_reg_d v s)
unfolding set_reg_d
set_reg_d-IsValid v w s h = record { words = omega arith; bytes = h.bytes }

pub load-Word : (p : Pointer) (s : Machine) → IsValid s → Word (load p s)
unfolding load
load-Word to_x s h = h.words.x_word
load-Word to_y s h = h.words.y_word
load-Word to_u s h = h.words.u_word
load-Word to_s s h = h.words.s_word

pub store-IsValid :
    (p : Pointer) (v : ℕ) → Word v → (s : Machine) → IsValid s → IsValid (store p v s)
unfolding store
store-IsValid to_x v w s h = record { words = omega arith; bytes = h.bytes }
store-IsValid to_y v w s h = record { words = omega arith; bytes = h.bytes }
store-IsValid to_u v w s h = record { words = omega arith; bytes = h.bytes }
store-IsValid to_s v w s h = record { words = omega arith; bytes = h.bytes }

pub get_acc-Word : (acc : Acc) (s : Machine) → IsValid s → Word (get_acc acc s)
unfolding get_acc
get_acc-Word acc_a s h = h.words.a_word
get_acc-Word acc_b s h = h.words.b_word

pub set_acc-IsValid :
    (acc : Acc) (v : ℕ) → Word v → (s : Machine) → IsValid s → IsValid (set_acc acc v s)
unfolding set_acc
set_acc-IsValid acc_a v w s h = record { words = omega arith; bytes = h.bytes }
set_acc-IsValid acc_b v w s h = record { words = omega arith; bytes = h.bytes }

pub sign_extend-Word : (b : ℕ) → Word (sign_extend b)
sign_extend-Word b = ground (arith, sign_extend_lem b)

-- An instruction on words ends with a word and a valid machine.
abbrev pub IsSound1 : Inst1 → Type 0
IsSound1 inst =
    (v : ℕ) → Word v → (s : Machine) → IsValid s → Word (inst v s).0 × IsValid (inst v s).1

abbrev pub IsSound2 : Inst2 → Type 0
IsSound2 inst = (v : ℕ) → Word v → IsSound1 (inst v)

set_hnzvc-IsValid : (i0 i1 r sub : ℕ) (s : Machine) → IsValid s → IsValid (set_hnzvc i0 i1 r sub s)
unfolding set_hnzvc
set_hnzvc-IsValid i0 i1 r sub s h = search set_cc-IsValid

set_nzvc16-IsValid :
    (i0 i1 r sub : ℕ) (s : Machine) → IsValid s → IsValid (set_nzvc16 i0 i1 r sub s)
unfolding set_nzvc16
set_nzvc16-IsValid i0 i1 r sub s h = search set_cc-IsValid

pub inst_tst8-IsValid : (v : ℕ) (s : Machine) → IsValid s → IsValid (inst_tst8 v s)
unfolding inst_tst8
inst_tst8-IsValid v s h = search set_cc-IsValid

pub inst_tst16-IsValid : (v : ℕ) (s : Machine) → IsValid s → IsValid (inst_tst16 v s)
unfolding inst_tst16
inst_tst16-IsValid v s h = search set_cc-IsValid

pub inst_clr-IsValid : (s : Machine) → IsValid s → IsValid (inst_clr s)
unfolding inst_clr
inst_clr-IsValid s h = search set_cc-IsValid

ruleset flag_rules = (set_cc-IsValid, set_hnzvc-IsValid, set_nzvc16-IsValid, inst_tst8-IsValid)

pub inst_neg-IsSound : IsSound1 inst_neg
unfolding inst_neg
inst_neg-IsSound v w s h = (omega arith, search flag_rules)

pub inst_com-IsSound : IsSound1 inst_com
unfolding inst_com
inst_com-IsSound v w s h = (omega arith, search flag_rules)

pub inst_lsr-IsSound : IsSound1 inst_lsr
unfolding inst_lsr
inst_lsr-IsSound v w s h = (bit_and-Word (v / 2) 0x7f (omega arith), search flag_rules)

pub inst_ror-IsSound : IsSound1 inst_ror
unfolding inst_ror
inst_ror-IsSound v w s h = (
  bit_or-Word _ _ (bit_and-Word (v / 2) 0x7f (omega arith)) (omega (arith, get_cc_lem 0 s)),
  search flag_rules,
)

pub inst_asr-IsSound : IsSound1 inst_asr
unfolding inst_asr
inst_asr-IsSound v w s h = (
  bit_or-Word _ _ (bit_and-Word (v / 2) 0x7f (omega arith)) (bit_and-Word v 0x80 w),
  search flag_rules,
)

pub inst_asl-IsSound : IsSound1 inst_asl
unfolding inst_asl
inst_asl-IsSound v w s h = (omega arith, search flag_rules)

pub inst_rol-IsSound : IsSound1 inst_rol
unfolding inst_rol
inst_rol-IsSound v w s h = (omega arith, search flag_rules)

pub inst_dec-IsSound : IsSound1 inst_dec
unfolding inst_dec
inst_dec-IsSound v w s h = (omega arith, search flag_rules)

pub inst_inc-IsSound : IsSound1 inst_inc
unfolding inst_inc
inst_inc-IsSound v w s h = (omega arith, search flag_rules)

pub inst_sub8-IsSound : IsSound2 inst_sub8
unfolding inst_sub8
inst_sub8-IsSound v w x y s h = (omega arith, search flag_rules)

pub inst_sbc-IsSound : IsSound2 inst_sbc
unfolding inst_sbc
inst_sbc-IsSound v w x y s h = (omega arith, search flag_rules)

pub inst_and-IsSound : IsSound2 inst_and
unfolding inst_and
inst_and-IsSound v w x y s h = (bit_and-Word v x w, search flag_rules)

pub inst_eor-IsSound : IsSound2 inst_eor
unfolding inst_eor
inst_eor-IsSound v w x y s h = (bit_xor-lt 32 v x w y, search flag_rules)

pub inst_adc-IsSound : IsSound2 inst_adc
unfolding inst_adc
inst_adc-IsSound v w x y s h = (omega arith, search flag_rules)

pub inst_or-IsSound : IsSound2 inst_or
unfolding inst_or
inst_or-IsSound v w x y s h = (bit_or-Word v x w y, search flag_rules)

pub inst_add8-IsSound : IsSound2 inst_add8
unfolding inst_add8
inst_add8-IsSound v w x y s h = (omega arith, search flag_rules)

pub inst_add16-IsSound : IsSound2 inst_add16
unfolding inst_add16
inst_add16-IsSound v w x y s h = (omega arith, search flag_rules)

pub inst_sub16-IsSound : IsSound2 inst_sub16
unfolding inst_sub16
inst_sub16-IsSound v w x y s h = (omega arith, search flag_rules)
