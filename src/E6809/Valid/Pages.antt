-- ===== src/E6809/Valid/Pages.antt =====
-- The invariant over the op codes of pages 0 to 2 that are not operand rows.
-- Code: emulators/e6809.c (e6809_sstep).
use fuzemsys.Base.{ℕ, ◌+◌, bit_and, bit_or, arith}
use fuzemsys.Base.Bits.{u32}
use fuzemsys.E6809.State.{Machine, gets, modify, to_s, flag_e}
use fuzemsys.E6809.Flags.{get_cc, set_reg_d, get_reg_d, set_cc, sign_extend, test_n, test_z16}
use fuzemsys.E6809.Cases.Control.{
  Test, branch_test, bra8, bra16, mul, lbra, lbsr, bsr, pshs, puls, pshu, pulu, rts, abx, orcc,
  andcc, sex, rti, sync, daa, daa_correction, cwai, swi_vector, branch_cases, control_cases,
  wait_cases,
}
use fuzemsys.E6809.Cases.Pages.{long_branch_cases, page1_word_cases, page2_cases, page1, page2}
use fuzemsys.E6809.Valid.{
  Word, Ensures, Keeps, bind-Ensures, then-Ensures, gets-Ensures, modify-Keeps, print_exit-Ensures,
}
use fuzemsys.E6809.Valid.Alu.{
  bit_and-Word, bit_or-Word, set_reg_d-IsValid, set_cc-IsValid, sign_extend-Word,
}
use fuzemsys.E6809.Valid.Bus.{
  pc_read8-Ensures, ea_direct-Yields, ea_indexed-Yields, ea_extended-Yields,
}
use fuzemsys.E6809.Valid.Bodies.{
  set_cc-Keeps, jsr-Keeps, lea_z-Keeps, lea-Keeps, Sound, none_left, case, switch-Keeps,
}
use fuzemsys.E6809.Valid.Tables.{u-Yields, word_rules}
use fuzemsys.E6809.Valid.Control.{
  control_rules, go-Keeps, wait-Keeps, a-Yields, inst_bra8-Keeps, inst_bra16-Keeps, inst_psh-Keeps,
  inst_pul-Keeps, inst_exg-Keeps, inst_tfr-Keeps,
}

-- A read whose value does not matter.
pub any-Ensures : {A : Type 0} (f : Machine → A) → Ensures (λ _. Unit {0}) (gets f)
any-Ensures f = gets-Ensures f (λ s h. tt)

bra8-Keeps : (t : Test) (op : ℕ) → Keeps (bra8 t op)
unfolding bra8
bra8-Keeps t op = bind-Ensures _ _ (any-Ensures (branch_test t)) (λ test _. inst_bra8-Keeps test op)

bra16-Keeps : (t : Test) (op : ℕ) → Keeps (bra16 t op)
unfolding bra16
bra16-Keeps t op =
    bind-Ensures _ _ (any-Ensures (branch_test t)) (λ test _. inst_bra16-Keeps test op)

u32-Word : (n : ℕ) → Word (u32 n)
u32-Word n = omega arith

mul-Keeps : Keeps mul
unfolding mul
mul-Keeps = search (control_rules, u32-Word) depth 12

lbra-Keeps : Keeps lbra
unfolding lbra
lbra-Keeps = search (control_rules, go-Keeps)

lbsr-Keeps : Keeps lbsr
unfolding lbsr
lbsr-Keeps = search (control_rules, go-Keeps) depth 8

bsr-Keeps : Keeps bsr
unfolding bsr
bsr-Keeps = search (control_rules, go-Keeps) depth 8

pshs-Keeps : Keeps pshs
unfolding pshs
pshs-Keeps = search (control_rules, inst_psh-Keeps)

puls-Keeps : Keeps puls
unfolding puls
puls-Keeps = search (control_rules, inst_pul-Keeps)

pshu-Keeps : Keeps pshu
unfolding pshu
pshu-Keeps = search (control_rules, inst_psh-Keeps)

pulu-Keeps : Keeps pulu
unfolding pulu
pulu-Keeps = search (control_rules, inst_pul-Keeps)

rts-Keeps : Keeps rts
unfolding rts
rts-Keeps = search control_rules

abx_step : Keeps (modify (λ s. record s { reg_x = u32 (s.reg_x + bit_and s.reg_b 0xff) }))
abx_step = modify-Keeps _ (λ s h. record { words = omega arith; bytes = h.bytes })

abx-Keeps : Keeps abx
unfolding abx
abx-Keeps = search (control_rules, abx_step)

orcc_step : (v : ℕ) → Word v → Keeps (modify (λ s. record s { reg_cc = bit_or s.reg_cc v }))
orcc_step v w = modify-Keeps _ λ s h.
    let cc = bit_or-Word s.reg_cc v h.words.cc_word w in
    record { words = omega arith; bytes = h.bytes }

orcc-Keeps : Keeps orcc
unfolding orcc
orcc-Keeps = search (control_rules, orcc_step)

andcc_step : (v : ℕ) → Keeps (modify (λ s. record s { reg_cc = bit_and s.reg_cc v }))
andcc_step v = modify-Keeps _ λ s h.
    let cc = bit_and-Word s.reg_cc v h.words.cc_word in
    record { words = omega arith; bytes = h.bytes }

andcc-Keeps : Keeps andcc
unfolding andcc
andcc-Keeps = search (control_rules, andcc_step)

extend_step : Keeps (modify (λ s. set_reg_d (sign_extend s.reg_b) s))
extend_step = modify-Keeps _ (λ s h. set_reg_d-IsValid _ (sign_extend-Word s.reg_b) s h)

flag_step : (flag : ℕ) (f : Machine → ℕ) → Keeps (modify (λ s. set_cc flag (f s) s))
flag_step flag f = modify-Keeps _ (λ s h. set_cc-IsValid flag (f s) s h)

sex-Keeps : Keeps sex
unfolding sex
sex-Keeps = then-Ensures _ _ extend_step (
    then-Ensures _ _ (flag_step _ (λ s. test_n s.reg_a))
      (then-Ensures _ _ (flag_step _ (λ s. test_z16 (get_reg_d s))) (search control_rules)))

rti-Keeps : Keeps rti
unfolding rti
rti-Keeps =
    bind-Ensures _ _ (any-Ensures (get_cc flag_e)) (λ e _. search (control_rules, inst_pul-Keeps))

sync-Keeps : Keeps sync
unfolding sync
sync-Keeps = then-Ensures _ _ (wait-Keeps 1 (omega arith)) (search control_rules)

daa-Keeps : Keeps daa
unfolding daa
daa-Keeps = bind-Ensures _ _ a-Yields λ i0 w.
    bind-Ensures _ _ (any-Ensures daa_correction) λ i1 _. search (control_rules, u32-Word) depth 8

cwai-Keeps : Keeps cwai
unfolding cwai
cwai-Keeps = bind-Ensures _ _ pc_read8-Ensures λ v w. then-Ensures _ _ (andcc_step v) (
    then-Ensures _ _ (set_cc-Keeps _ 1) (
      bind-Ensures _ _ u-Yields λ u x.
        then-Ensures _ _ (inst_psh-Keeps 0xff to_s u)
          (then-Ensures _ _ (wait-Keeps 2 (omega arith)) (search control_rules))))

swi_vector-Keeps : (vector : ℕ) → Keeps (swi_vector vector)
unfolding swi_vector
swi_vector-Keeps vector = search (control_rules, inst_psh-Keeps, go-Keeps) depth 8

ruleset page_rules = (
  control_rules, case, none_left, bra8-Keeps, bra16-Keeps, mul-Keeps, lbra-Keeps, lbsr-Keeps,
  bsr-Keeps, pshs-Keeps, puls-Keeps, pshu-Keeps, pulu-Keeps, rts-Keeps, abx-Keeps, orcc-Keeps,
  andcc-Keeps, sex-Keeps, rti-Keeps, sync-Keeps, daa-Keeps, cwai-Keeps, swi_vector-Keeps,
  inst_exg-Keeps, inst_tfr-Keeps, jsr-Keeps, lea_z-Keeps, lea-Keeps, ea_direct-Yields,
  ea_indexed-Yields, ea_extended-Yields,
)

pub branch_cases-Sound : Sound branch_cases
unfolding branch_cases
branch_cases-Sound = search page_rules depth 40 fits 20000

pub control_cases-Sound : Sound control_cases
unfolding control_cases
control_cases-Sound = search page_rules depth 40 fits 20000

pub wait_cases-Sound : Sound wait_cases
unfolding wait_cases
wait_cases-Sound = search page_rules depth 40 fits 20000

long_branch_cases-Sound : Sound long_branch_cases
unfolding long_branch_cases
long_branch_cases-Sound = search page_rules depth 40 fits 20000

page1_word_cases-Sound : Sound page1_word_cases
unfolding page1_word_cases
page1_word_cases-Sound = search (word_rules, swi_vector-Keeps) depth 40 fits 20000

page2_cases-Sound : Sound page2_cases
unfolding page2_cases
page2_cases-Sound = search (word_rules, swi_vector-Keeps) depth 40 fits 20000

pub page1-Keeps : (op : ℕ) → Keeps (page1 op)
unfolding page1
page1-Keeps op =
    switch-Keeps op long_branch_cases-Sound
      (switch-Keeps op page1_word_cases-Sound (print_exit-Ensures _ 1))

pub page2-Keeps : (op : ℕ) → Keeps (page2 op)
unfolding page2
page2-Keeps op = switch-Keeps op page2_cases-Sound (print_exit-Ensures _ 1)
