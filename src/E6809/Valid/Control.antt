-- ===== src/E6809/Valid/Control.antt =====
-- The invariant over branches, stack instructions and transfers.
-- Code: emulators/e6809.c (inst_bra8 to inst_tfr, and e6809_sstep).
use fuzemsys.Base.{ℕ, ◌%◌, ◌^◌, ◌≤◌, bit_or, arith}
use fuzemsys.E6809.State.{Machine, gets, modify, Pointer}
use fuzemsys.E6809.Flags.{get_cc}
use fuzemsys.E6809.Stack.{inst_bra8, inst_bra16, inst_psh, inst_pul}
use fuzemsys.E6809.Transfer.{exgtfr_read, exgtfr_write, inst_exg, inst_tfr}
use fuzemsys.E6809.Flags.Laws.{get_cc_lem}
use fuzemsys.E6809.Valid.{
  IsValid, Words, Word, Ensures, Keeps, Yields, bind-Ensures, bind_value-Ensures, then-Ensures,
  if-Ensures, gets-Ensures, pure-Keeps, modify-Keeps, add_cycles-Keeps, print_exit-Ensures,
}
use fuzemsys.E6809.Valid.Alu.{bit_or-Word}
use fuzemsys.E6809.Valid.Bus.{
  push8-Keeps, push16-Keeps, pull8-Ensures, pull16-Ensures, pc_read8-Ensures, pc_read16-Ensures,
  read16-Word, ea_direct-Yields, ea_indexed-Yields, ea_extended-Yields,
}
use fuzemsys.E6809.Valid.Bodies.{
  gets-Yields, get_reg_d-Yields, pc-Yields, store-Keeps, set_reg_d-Keeps, set_cc-Keeps,
  set_pc-Keeps, jsr-Keeps, lea_z-Keeps, lea-Keeps, Sound, none_left, case, switch-Keeps,
}
use fuzemsys.E6809.Valid.Tables.{x-Yields, y-Yields, u-Yields, s-Yields, word_rules}

pub a-Yields : Yields (gets (λ s. s.reg_a))
a-Yields = gets-Yields _ (λ s h. h.words.a_word)

pub b-Yields : Yields (gets (λ s. s.reg_b))
b-Yields = gets-Yields _ (λ s h. h.words.b_word)

pub dp-Yields : Yields (gets (λ s. s.reg_dp))
dp-Yields = gets-Yields _ (λ s h. h.words.dp_word)

pub cc-Yields : Yields (gets (λ s. s.reg_cc))
cc-Yields = gets-Yields _ (λ s h. h.words.cc_word)

module _ (v : ℕ) (w : Word v) where
  pub set_a-Keeps : Keeps (modify (λ s. record s { reg_a = v }))
  set_a-Keeps = modify-Keeps _ (λ s h. record { words = omega arith; bytes = h.bytes })

  pub set_b-Keeps : Keeps (modify (λ s. record s { reg_b = v }))
  set_b-Keeps = modify-Keeps _ (λ s h. record { words = omega arith; bytes = h.bytes })

  pub set_dp-Keeps : Keeps (modify (λ s. record s { reg_dp = v }))
  set_dp-Keeps = modify-Keeps _ (λ s h. record { words = omega arith; bytes = h.bytes })

  pub set_cc_reg-Keeps : Keeps (modify (λ s. record s { reg_cc = v }))
  set_cc_reg-Keeps = modify-Keeps _ (λ s h. record { words = omega arith; bytes = h.bytes })

  pub set_x-Keeps : Keeps (modify (λ s. record s { reg_x = v }))
  set_x-Keeps = modify-Keeps _ (λ s h. record { words = omega arith; bytes = h.bytes })

  pub set_y-Keeps : Keeps (modify (λ s. record s { reg_y = v }))
  set_y-Keeps = modify-Keeps _ (λ s h. record { words = omega arith; bytes = h.bytes })

  pub set_u-Keeps : Keeps (modify (λ s. record s { reg_u = v }))
  set_u-Keeps = modify-Keeps _ (λ s h. record { words = omega arith; bytes = h.bytes })

  pub set_s-Keeps : Keeps (modify (λ s. record s { reg_s = v }))
  set_s-Keeps = modify-Keeps _ (λ s h. record { words = omega arith; bytes = h.bytes })

-- A jump relative to the machine.
pub go-Keeps : (e : Machine → ℕ) → Keeps (modify (λ s. record s { reg_pc = e s % 2 ^ 16 }))
go-Keeps e = modify-Keeps _ (λ s h. record { words = omega arith; bytes = h.bytes })

pub wait-Keeps : (n : ℕ) → n ≤ 2 → Keeps (modify (λ s. record s { irq_status = n }))
wait-Keeps n w = modify-Keeps _ (λ s h. record { words = omega arith; bytes = h.bytes })

pub wide_a-Yields : Yields (gets (λ s. bit_or 0xff00 s.reg_a))
wide_a-Yields = gets-Yields _ (λ s h. bit_or-Word _ _ (omega arith) h.words.a_word)

pub wide_b-Yields : Yields (gets (λ s. bit_or 0xff00 s.reg_b))
wide_b-Yields = gets-Yields _ (λ s h. bit_or-Word _ _ (omega arith) h.words.b_word)

pub wide_cc-Yields : Yields (gets (λ s. bit_or 0xff00 s.reg_cc))
wide_cc-Yields = gets-Yields _ (λ s h. bit_or-Word _ _ (omega arith) h.words.cc_word)

pub wide_dp-Yields : Yields (gets (λ s. bit_or 0xff00 s.reg_dp))
wide_dp-Yields = gets-Yields _ (λ s h. bit_or-Word _ _ (omega arith) h.words.dp_word)

pub get_cc-Yields : (k : ℕ) → Yields (gets (get_cc (2 ^ k)))
get_cc-Yields k = gets-Yields _ (λ s h. omega (arith, get_cc_lem k s))

pub ruleset control_rules = (
  bind_value-Ensures, then-Ensures, if-Ensures, pure-Keeps, add_cycles-Keeps, print_exit-Ensures,
  a-Yields, b-Yields, dp-Yields, cc-Yields, x-Yields, y-Yields, u-Yields, s-Yields, pc-Yields,
  get_reg_d-Yields, wide_a-Yields, wide_b-Yields, wide_cc-Yields, wide_dp-Yields, set_a-Keeps,
  set_b-Keeps, set_dp-Keeps, set_cc_reg-Keeps, set_x-Keeps, set_y-Keeps, set_u-Keeps, set_s-Keeps,
  set_pc-Keeps, store-Keeps, set_reg_d-Keeps, set_cc-Keeps, push8-Keeps, push16-Keeps,
  pull8-Ensures, pull16-Ensures, pc_read8-Ensures, pc_read16-Ensures,
)

pub inst_bra8-Keeps : (test op : ℕ) → Keeps (inst_bra8 test op)
unfolding inst_bra8
inst_bra8-Keeps test op = search (control_rules, go-Keeps)

pub inst_bra16-Keeps : (test op : ℕ) → Keeps (inst_bra16 test op)
unfolding inst_bra16
inst_bra16-Keeps test op = search (control_rules, go-Keeps)

pub inst_psh-Keeps : (op : ℕ) (sp : Pointer) (word : ℕ) → Keeps (inst_psh op sp word)
unfolding inst_psh
inst_psh-Keeps op sp word = search control_rules depth 20 fits 20000

pub inst_pul-Keeps : (op : ℕ) (sp osp : Pointer) → Keeps (inst_pul op sp osp)
unfolding inst_pul
inst_pul-Keeps op sp osp = search control_rules depth 20 fits 20000

pub exgtfr_read-Yields : (reg : ℕ) → Yields (exgtfr_read reg)
unfolding exgtfr_read
exgtfr_read-Yields reg = search control_rules depth 20 fits 20000

pub exgtfr_write-Keeps : (reg v : ℕ) → Word v → Keeps (exgtfr_write reg v)
unfolding exgtfr_write
exgtfr_write-Keeps reg v w = search control_rules depth 20 fits 20000

ruleset exchange_rules =
    (bind_value-Ensures, then-Ensures, pc_read8-Ensures, exgtfr_read-Yields, exgtfr_write-Keeps)

pub inst_exg-Keeps : Keeps inst_exg
unfolding inst_exg
inst_exg-Keeps = search exchange_rules depth 8

pub inst_tfr-Keeps : Keeps inst_tfr
unfolding inst_tfr
inst_tfr-Keeps = search exchange_rules depth 8
