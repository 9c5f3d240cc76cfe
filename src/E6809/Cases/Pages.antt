-- ===== src/E6809/Cases/Pages.antt =====
-- The op codes after the prefixes 0x10 and 0x11. Code: emulators/e6809.c (e6809_sstep).
use fuzemsys.Base.{ℕ, [], ◌∷◌}
use fuzemsys.Console.{print_unknown}
use fuzemsys.E6809.State.{Op, Void, print_exit, to_y, to_s}
use fuzemsys.E6809.Flags.{get_reg_d}
use fuzemsys.E6809.Alu.{inst_sub16}
use fuzemsys.E6809.Address.{ea_direct, ea_extended, ea_indexed}
use fuzemsys.E6809.Cases.{Cases, switch, imm16, word_at, cmp16, ld16, st16}
use fuzemsys.E6809.Cases.Control.{
  bra16, always, higher, carry, zero_flag, overflow, negative, less, less_or_equal, swi_vector,
}

-- The long branches.
unfoldable pub long_branch_cases : Cases
long_branch_cases =
    (0x20, bra16 always 0x20)
    ∷ (0x21, bra16 always 0x21)
    ∷ (0x22, bra16 higher 0x22)
    ∷ (0x23, bra16 higher 0x23)
    ∷ (0x24, bra16 carry 0x24)
    ∷ (0x25, bra16 carry 0x25)
    ∷ (0x26, bra16 zero_flag 0x26)
    ∷ (0x27, bra16 zero_flag 0x27)
    ∷ (0x28, bra16 overflow 0x28)
    ∷ (0x29, bra16 overflow 0x29)
    ∷ (0x2a, bra16 negative 0x2a)
    ∷ (0x2b, bra16 negative 0x2b)
    ∷ (0x2c, bra16 less 0x2c)
    ∷ (0x2d, bra16 less 0x2d)
    ∷ (0x2e, bra16 less_or_equal 0x2e)
    ∷ (0x2f, bra16 less_or_equal 0x2f)
    ∷ []

-- cmpd, cmpy, ldy, sty, lds, sts, swi2
unfoldable pub page1_word_cases : Cases
page1_word_cases =
    (0x83, cmp16 inst_sub16 get_reg_d imm16 5)
    ∷ (0x93, cmp16 inst_sub16 get_reg_d (word_at ea_direct) 7)
    ∷ (0xa3, cmp16 inst_sub16 get_reg_d (word_at ea_indexed) 7)
    ∷ (0xb3, cmp16 inst_sub16 get_reg_d (word_at ea_extended) 8)
    ∷ (0x8c, cmp16 inst_sub16 (λ s. s.reg_y) imm16 5)
    ∷ (0x9c, cmp16 inst_sub16 (λ s. s.reg_y) (word_at ea_direct) 7)
    ∷ (0xac, cmp16 inst_sub16 (λ s. s.reg_y) (word_at ea_indexed) 7)
    ∷ (0xbc, cmp16 inst_sub16 (λ s. s.reg_y) (word_at ea_extended) 8)
    ∷ (0x8e, ld16 to_y imm16 4)
    ∷ (0x9e, ld16 to_y (word_at ea_direct) 6)
    ∷ (0xae, ld16 to_y (word_at ea_indexed) 6)
    ∷ (0xbe, ld16 to_y (word_at ea_extended) 7)
    ∷ (0x9f, st16 (λ s. s.reg_y) ea_direct 6)
    ∷ (0xaf, st16 (λ s. s.reg_y) ea_indexed 6)
    ∷ (0xbf, st16 (λ s. s.reg_y) ea_extended 7)
    ∷ (0xce, ld16 to_s imm16 4)
    ∷ (0xde, ld16 to_s (word_at ea_direct) 6)
    ∷ (0xee, ld16 to_s (word_at ea_indexed) 6)
    ∷ (0xfe, ld16 to_s (word_at ea_extended) 7)
    ∷ (0xdf, st16 (λ s. s.reg_s) ea_direct 6)
    ∷ (0xef, st16 (λ s. s.reg_s) ea_indexed 6)
    ∷ (0xff, st16 (λ s. s.reg_s) ea_extended 7)
    ∷ (0x3f, swi_vector 0xfff4)
    ∷ []

-- cmpu, cmps, swi3
unfoldable pub page2_cases : Cases
page2_cases =
    (0x83, cmp16 inst_sub16 (λ s. s.reg_u) imm16 5)
    ∷ (0x93, cmp16 inst_sub16 (λ s. s.reg_u) (word_at ea_direct) 7)
    ∷ (0xa3, cmp16 inst_sub16 (λ s. s.reg_u) (word_at ea_indexed) 7)
    ∷ (0xb3, cmp16 inst_sub16 (λ s. s.reg_u) (word_at ea_extended) 8)
    ∷ (0x8c, cmp16 inst_sub16 (λ s. s.reg_s) imm16 5)
    ∷ (0x9c, cmp16 inst_sub16 (λ s. s.reg_s) (word_at ea_direct) 7)
    ∷ (0xac, cmp16 inst_sub16 (λ s. s.reg_s) (word_at ea_indexed) 7)
    ∷ (0xbc, cmp16 inst_sub16 (λ s. s.reg_s) (word_at ea_extended) 8)
    ∷ (0x3f, swi_vector 0xfff2)
    ∷ []

unfoldable pub page1 : ℕ → Op Void
page1 op =
    switch op long_branch_cases (switch op page1_word_cases (print_exit (print_unknown 1 op) 1))

unfoldable pub page2 : ℕ → Op Void
page2 op = switch op page2_cases (print_exit (print_unknown 2 op) 1)
