-- ===== src/E6809/Cases/Word.antt =====
-- Page 0, op codes 0x80 to 0xff on words. Code: emulators/e6809.c (e6809_sstep).
use fuzemsys.Base.{[], ◌∷◌}
use fuzemsys.E6809.State.{to_x, to_u}
use fuzemsys.E6809.Flags.{get_reg_d}
use fuzemsys.E6809.Alu.{inst_add16, inst_sub16}
use fuzemsys.E6809.Address.{ea_direct, ea_extended, ea_indexed}
use fuzemsys.E6809.Cases.{Cases, imm16, word_at, alu_d, cmp16, ld16, st16, ld_d}

-- subd, cmpx, ldx, ldu, stx, stu
unfoldable pub word_cases : Cases
word_cases =
    (0x83, alu_d inst_sub16 imm16 4)
    ∷ (0x93, alu_d inst_sub16 (word_at ea_direct) 6)
    ∷ (0xa3, alu_d inst_sub16 (word_at ea_indexed) 6)
    ∷ (0xb3, alu_d inst_sub16 (word_at ea_extended) 7)
    ∷ (0x8c, cmp16 inst_sub16 (λ s. s.reg_x) imm16 4)
    ∷ (0x9c, cmp16 inst_sub16 (λ s. s.reg_x) (word_at ea_direct) 6)
    ∷ (0xac, cmp16 inst_sub16 (λ s. s.reg_x) (word_at ea_indexed) 6)
    ∷ (0xbc, cmp16 inst_sub16 (λ s. s.reg_x) (word_at ea_extended) 7)
    ∷ (0x8e, ld16 to_x imm16 3)
    ∷ (0x9e, ld16 to_x (word_at ea_direct) 5)
    ∷ (0xae, ld16 to_x (word_at ea_indexed) 5)
    ∷ (0xbe, ld16 to_x (word_at ea_extended) 6)
    ∷ (0xce, ld16 to_u imm16 3)
    ∷ (0xde, ld16 to_u (word_at ea_direct) 5)
    ∷ (0xee, ld16 to_u (word_at ea_indexed) 5)
    ∷ (0xfe, ld16 to_u (word_at ea_extended) 6)
    ∷ (0x9f, st16 (λ s. s.reg_x) ea_direct 5)
    ∷ (0xaf, st16 (λ s. s.reg_x) ea_indexed 5)
    ∷ (0xbf, st16 (λ s. s.reg_x) ea_extended 6)
    ∷ (0xdf, st16 (λ s. s.reg_u) ea_direct 5)
    ∷ (0xef, st16 (λ s. s.reg_u) ea_indexed 5)
    ∷ (0xff, st16 (λ s. s.reg_u) ea_extended 6)
    ∷ []

-- addd, ldd, std
unfoldable pub double_cases : Cases
double_cases =
    (0xc3, alu_d inst_add16 imm16 4)
    ∷ (0xd3, alu_d inst_add16 (word_at ea_direct) 6)
    ∷ (0xe3, alu_d inst_add16 (word_at ea_indexed) 6)
    ∷ (0xf3, alu_d inst_add16 (word_at ea_extended) 7)
    ∷ (0xcc, ld_d imm16 3)
    ∷ (0xdc, ld_d (word_at ea_direct) 5)
    ∷ (0xec, ld_d (word_at ea_indexed) 5)
    ∷ (0xfc, ld_d (word_at ea_extended) 6)
    ∷ (0xdd, st16 get_reg_d ea_direct 5)
    ∷ (0xed, st16 get_reg_d ea_indexed 5)
    ∷ (0xfd, st16 get_reg_d ea_extended 6)
    ∷ []
