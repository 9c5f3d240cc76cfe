-- ===== src/E6809/Cases/Accumulator.antt =====
-- Page 0, op codes 0x80 to 0xff on the accumulators. Code: emulators/e6809.c (e6809_sstep).
use fuzemsys.Base.{[], ◌∷◌}
use fuzemsys.E6809.Alu.{inst_sub8, inst_sbc, inst_and, inst_eor, inst_adc, inst_or, inst_add8}
use fuzemsys.E6809.Address.{ea_direct, ea_extended, ea_indexed}
use fuzemsys.E6809.Cases.{Cases, acc_a, acc_b, imm8, byte_at, alu, alu_flags, ld, st}

-- suba, subb, cmpa, cmpb, sbca, sbcb
unfoldable pub subtract_cases : Cases
subtract_cases =
    (0x80, alu inst_sub8 acc_a imm8 2)
    ∷ (0x90, alu inst_sub8 acc_a (byte_at ea_direct) 4)
    ∷ (0xa0, alu inst_sub8 acc_a (byte_at ea_indexed) 4)
    ∷ (0xb0, alu inst_sub8 acc_a (byte_at ea_extended) 5)
    ∷ (0xc0, alu inst_sub8 acc_b imm8 2)
    ∷ (0xd0, alu inst_sub8 acc_b (byte_at ea_direct) 4)
    ∷ (0xe0, alu inst_sub8 acc_b (byte_at ea_indexed) 4)
    ∷ (0xf0, alu inst_sub8 acc_b (byte_at ea_extended) 5)
    ∷ (0x81, alu_flags inst_sub8 acc_a imm8 2)
    ∷ (0x91, alu_flags inst_sub8 acc_a (byte_at ea_direct) 4)
    ∷ (0xa1, alu_flags inst_sub8 acc_a (byte_at ea_indexed) 4)
    ∷ (0xb1, alu_flags inst_sub8 acc_a (byte_at ea_extended) 5)
    ∷ (0xc1, alu_flags inst_sub8 acc_b imm8 2)
    ∷ (0xd1, alu_flags inst_sub8 acc_b (byte_at ea_direct) 4)
    ∷ (0xe1, alu_flags inst_sub8 acc_b (byte_at ea_indexed) 4)
    ∷ (0xf1, alu_flags inst_sub8 acc_b (byte_at ea_extended) 5)
    ∷ (0x82, alu inst_sbc acc_a imm8 2)
    ∷ (0x92, alu inst_sbc acc_a (byte_at ea_direct) 4)
    ∷ (0xa2, alu inst_sbc acc_a (byte_at ea_indexed) 4)
    ∷ (0xb2, alu inst_sbc acc_a (byte_at ea_extended) 5)
    ∷ (0xc2, alu inst_sbc acc_b imm8 2)
    ∷ (0xd2, alu inst_sbc acc_b (byte_at ea_direct) 4)
    ∷ (0xe2, alu inst_sbc acc_b (byte_at ea_indexed) 4)
    ∷ (0xf2, alu inst_sbc acc_b (byte_at ea_extended) 5)
    ∷ []

-- anda, andb, bita, bitb, lda, ldb
unfoldable pub load_cases : Cases
load_cases =
    (0x84, alu inst_and acc_a imm8 2)
    ∷ (0x94, alu inst_and acc_a (byte_at ea_direct) 4)
    ∷ (0xa4, alu inst_and acc_a (byte_at ea_indexed) 4)
    ∷ (0xb4, alu inst_and acc_a (byte_at ea_extended) 5)
    ∷ (0xc4, alu inst_and acc_b imm8 2)
    ∷ (0xd4, alu inst_and acc_b (byte_at ea_direct) 4)
    ∷ (0xe4, alu inst_and acc_b (byte_at ea_indexed) 4)
    ∷ (0xf4, alu inst_and acc_b (byte_at ea_extended) 5)
    ∷ (0x85, alu_flags inst_and acc_a imm8 2)
    ∷ (0x95, alu_flags inst_and acc_a (byte_at ea_direct) 4)
    ∷ (0xa5, alu_flags inst_and acc_a (byte_at ea_indexed) 4)
    ∷ (0xb5, alu_flags inst_and acc_a (byte_at ea_extended) 5)
    ∷ (0xc5, alu_flags inst_and acc_b imm8 2)
    ∷ (0xd5, alu_flags inst_and acc_b (byte_at ea_direct) 4)
    ∷ (0xe5, alu_flags inst_and acc_b (byte_at ea_indexed) 4)
    ∷ (0xf5, alu_flags inst_and acc_b (byte_at ea_extended) 5)
    ∷ (0x86, ld acc_a imm8 2)
    ∷ (0x96, ld acc_a (byte_at ea_direct) 4)
    ∷ (0xa6, ld acc_a (byte_at ea_indexed) 4)
    ∷ (0xb6, ld acc_a (byte_at ea_extended) 5)
    ∷ (0xc6, ld acc_b imm8 2)
    ∷ (0xd6, ld acc_b (byte_at ea_direct) 4)
    ∷ (0xe6, ld acc_b (byte_at ea_indexed) 4)
    ∷ (0xf6, ld acc_b (byte_at ea_extended) 5)
    ∷ []

-- sta, stb, eora, eorb, adca, adcb
unfoldable pub store_cases : Cases
store_cases =
    (0x97, st acc_a ea_direct 4)
    ∷ (0xa7, st acc_a ea_indexed 4)
    ∷ (0xb7, st acc_a ea_extended 5)
    ∷ (0xd7, st acc_b ea_direct 4)
    ∷ (0xe7, st acc_b ea_indexed 4)
    ∷ (0xf7, st acc_b ea_extended 5)
    ∷ (0x88, alu inst_eor acc_a imm8 2)
    ∷ (0x98, alu inst_eor acc_a (byte_at ea_direct) 4)
    ∷ (0xa8, alu inst_eor acc_a (byte_at ea_indexed) 4)
    ∷ (0xb8, alu inst_eor acc_a (byte_at ea_extended) 5)
    ∷ (0xc8, alu inst_eor acc_b imm8 2)
    ∷ (0xd8, alu inst_eor acc_b (byte_at ea_direct) 4)
    ∷ (0xe8, alu inst_eor acc_b (byte_at ea_indexed) 4)
    ∷ (0xf8, alu inst_eor acc_b (byte_at ea_extended) 5)
    ∷ (0x89, alu inst_adc acc_a imm8 2)
    ∷ (0x99, alu inst_adc acc_a (byte_at ea_direct) 4)
    ∷ (0xa9, alu inst_adc acc_a (byte_at ea_indexed) 4)
    ∷ (0xb9, alu inst_adc acc_a (byte_at ea_extended) 5)
    ∷ (0xc9, alu inst_adc acc_b imm8 2)
    ∷ (0xd9, alu inst_adc acc_b (byte_at ea_direct) 4)
    ∷ (0xe9, alu inst_adc acc_b (byte_at ea_indexed) 4)
    ∷ (0xf9, alu inst_adc acc_b (byte_at ea_extended) 5)
    ∷ []

-- ora, orb, adda, addb
unfoldable pub add_cases : Cases
add_cases =
    (0x8a, alu inst_or acc_a imm8 2)
    ∷ (0x9a, alu inst_or acc_a (byte_at ea_direct) 4)
    ∷ (0xaa, alu inst_or acc_a (byte_at ea_indexed) 4)
    ∷ (0xba, alu inst_or acc_a (byte_at ea_extended) 5)
    ∷ (0xca, alu inst_or acc_b imm8 2)
    ∷ (0xda, alu inst_or acc_b (byte_at ea_direct) 4)
    ∷ (0xea, alu inst_or acc_b (byte_at ea_indexed) 4)
    ∷ (0xfa, alu inst_or acc_b (byte_at ea_extended) 5)
    ∷ (0x8b, alu inst_add8 acc_a imm8 2)
    ∷ (0x9b, alu inst_add8 acc_a (byte_at ea_direct) 4)
    ∷ (0xab, alu inst_add8 acc_a (byte_at ea_indexed) 4)
    ∷ (0xbb, alu inst_add8 acc_a (byte_at ea_extended) 5)
    ∷ (0xcb, alu inst_add8 acc_b imm8 2)
    ∷ (0xdb, alu inst_add8 acc_b (byte_at ea_direct) 4)
    ∷ (0xeb, alu inst_add8 acc_b (byte_at ea_indexed) 4)
    ∷ (0xfb, alu inst_add8 acc_b (byte_at ea_extended) 5)
    ∷ []
