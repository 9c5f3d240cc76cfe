-- ===== src/E6809/Valid/Tables.antt =====
-- The invariant over the rows of page 0 that work on operands.
-- Code: emulators/e6809.c (e6809_sstep).
use fuzemsys.E6809.State.{gets}
use fuzemsys.E6809.Cases.Unary.{shift_right_cases, shift_left_cases, test_cases}
use fuzemsys.E6809.Cases.Accumulator.{subtract_cases, load_cases, store_cases, add_cases}
use fuzemsys.E6809.Cases.Word.{word_cases, double_cases}
use fuzemsys.E6809.Valid.{Yields}
use fuzemsys.E6809.Valid.Alu.{
  inst_neg-IsSound, inst_com-IsSound, inst_lsr-IsSound, inst_ror-IsSound, inst_asr-IsSound,
  inst_asl-IsSound, inst_rol-IsSound, inst_dec-IsSound, inst_inc-IsSound, inst_sub8-IsSound,
  inst_sbc-IsSound, inst_and-IsSound, inst_eor-IsSound, inst_adc-IsSound, inst_or-IsSound,
  inst_add8-IsSound, inst_add16-IsSound, inst_sub16-IsSound,
}
use fuzemsys.E6809.Valid.Bus.{ea_direct-Yields, ea_extended-Yields, ea_indexed-Yields}
use fuzemsys.E6809.Valid.Bodies.{
  gets-Yields, get_reg_d-Yields, imm8-Yields, imm16-Yields, byte_at-Yields, word_at-Yields,
  rmw-Keeps, tst_at-Keeps, jmp-Keeps, clr_at-Keeps, st-Keeps, st16-Keeps, alu-Keeps,
  alu_flags-Keeps, ld-Keeps, alu_d-Keeps, cmp16-Keeps, ld16-Keeps, ld_d-Keeps, on_acc-Keeps,
  tst_acc-Keeps, clr_acc-Keeps, Sound, none_left, case,
}

pub x-Yields : Yields (gets (λ s. s.reg_x))
x-Yields = gets-Yields _ (λ s h. h.words.x_word)

pub y-Yields : Yields (gets (λ s. s.reg_y))
y-Yields = gets-Yields _ (λ s h. h.words.y_word)

pub u-Yields : Yields (gets (λ s. s.reg_u))
u-Yields = gets-Yields _ (λ s h. h.words.u_word)

pub s-Yields : Yields (gets (λ s. s.reg_s))
s-Yields = gets-Yields _ (λ s h. h.words.s_word)

pub ruleset operand_rules = (
  case, none_left, ea_direct-Yields, ea_extended-Yields, ea_indexed-Yields, imm8-Yields,
  imm16-Yields, byte_at-Yields, word_at-Yields, x-Yields, y-Yields, u-Yields, s-Yields,
  get_reg_d-Yields,
)

ruleset unary_rules = (
  operand_rules, rmw-Keeps, on_acc-Keeps, tst_at-Keeps, tst_acc-Keeps, jmp-Keeps, clr_at-Keeps,
  clr_acc-Keeps, inst_neg-IsSound, inst_com-IsSound, inst_lsr-IsSound, inst_ror-IsSound,
  inst_asr-IsSound, inst_asl-IsSound, inst_rol-IsSound, inst_dec-IsSound, inst_inc-IsSound,
)

ruleset binary_rules = (
  operand_rules, alu-Keeps, alu_flags-Keeps, ld-Keeps, st-Keeps, inst_sub8-IsSound,
  inst_sbc-IsSound, inst_and-IsSound, inst_eor-IsSound, inst_adc-IsSound, inst_or-IsSound,
  inst_add8-IsSound,
)

pub ruleset word_rules = (
  operand_rules, alu_d-Keeps, cmp16-Keeps, ld16-Keeps, st16-Keeps, ld_d-Keeps, inst_add16-IsSound,
  inst_sub16-IsSound,
)

pub shift_right_cases-Sound : Sound shift_right_cases
unfolding shift_right_cases
shift_right_cases-Sound = search unary_rules depth 40 fits 20000

pub shift_left_cases-Sound : Sound shift_left_cases
unfolding shift_left_cases
shift_left_cases-Sound = search unary_rules depth 40 fits 20000

pub test_cases-Sound : Sound test_cases
unfolding test_cases
test_cases-Sound = search unary_rules depth 40 fits 20000

pub subtract_cases-Sound : Sound subtract_cases
unfolding subtract_cases
subtract_cases-Sound = search binary_rules depth 40 fits 20000

pub load_cases-Sound : Sound load_cases
unfolding load_cases
load_cases-Sound = search binary_rules depth 40 fits 20000

pub store_cases-Sound : Sound store_cases
unfolding store_cases
store_cases-Sound = search binary_rules depth 40 fits 20000

pub add_cases-Sound : Sound add_cases
unfolding add_cases
add_cases-Sound = search binary_rules depth 40 fits 20000

pub word_cases-Sound : Sound word_cases
unfolding word_cases
word_cases-Sound = search word_rules depth 40 fits 20000

pub double_cases-Sound : Sound double_cases
unfolding double_cases
double_cases-Sound = search word_rules depth 40 fits 20000
