-- ===== src/E6809/Cases/Unary.antt =====
-- Page 0, op codes 0x00 to 0x0f and 0x40 to 0x7f: one operand, read and written back.
-- Code: emulators/e6809.c (e6809_sstep).
use fuzemsys.Base.{[], ◌∷◌}
use fuzemsys.E6809.Alu.{
  inst_neg, inst_com, inst_lsr, inst_ror, inst_asr, inst_asl, inst_rol, inst_dec, inst_inc,
}
use fuzemsys.E6809.Address.{ea_direct, ea_extended, ea_indexed}
use fuzemsys.E6809.Cases.{Cases, acc_a, acc_b, rmw, on_acc, tst_at, tst_acc, jmp, clr_at, clr_acc}

-- neg, com, lsr, ror, asr
unfoldable pub shift_right_cases : Cases
shift_right_cases =
    (0x00, rmw inst_neg ea_direct 6)
    ∷ (0x40, on_acc inst_neg acc_a)
    ∷ (0x50, on_acc inst_neg acc_b)
    ∷ (0x60, rmw inst_neg ea_indexed 6)
    ∷ (0x70, rmw inst_neg ea_extended 7)
    ∷ (0x03, rmw inst_com ea_direct 6)
    ∷ (0x43, on_acc inst_com acc_a)
    ∷ (0x53, on_acc inst_com acc_b)
    ∷ (0x63, rmw inst_com ea_indexed 6)
    ∷ (0x73, rmw inst_com ea_extended 7)
    ∷ (0x04, rmw inst_lsr ea_direct 6)
    ∷ (0x44, on_acc inst_lsr acc_a)
    ∷ (0x54, on_acc inst_lsr acc_b)
    ∷ (0x64, rmw inst_lsr ea_indexed 6)
    ∷ (0x74, rmw inst_lsr ea_extended 7)
    ∷ (0x06, rmw inst_ror ea_direct 6)
    ∷ (0x46, on_acc inst_ror acc_a)
    ∷ (0x56, on_acc inst_ror acc_b)
    ∷ (0x66, rmw inst_ror ea_indexed 6)
    ∷ (0x76, rmw inst_ror ea_extended 7)
    ∷ (0x07, rmw inst_asr ea_direct 6)
    ∷ (0x47, on_acc inst_asr acc_a)
    ∷ (0x57, on_acc inst_asr acc_b)
    ∷ (0x67, rmw inst_asr ea_indexed 6)
    ∷ (0x77, rmw inst_asr ea_extended 7)
    ∷ []

-- asl, rol, dec, inc
unfoldable pub shift_left_cases : Cases
shift_left_cases =
    (0x08, rmw inst_asl ea_direct 6)
    ∷ (0x48, on_acc inst_asl acc_a)
    ∷ (0x58, on_acc inst_asl acc_b)
    ∷ (0x68, rmw inst_asl ea_indexed 6)
    ∷ (0x78, rmw inst_asl ea_extended 7)
    ∷ (0x09, rmw inst_rol ea_direct 6)
    ∷ (0x49, on_acc inst_rol acc_a)
    ∷ (0x59, on_acc inst_rol acc_b)
    ∷ (0x69, rmw inst_rol ea_indexed 6)
    ∷ (0x79, rmw inst_rol ea_extended 7)
    ∷ (0x0a, rmw inst_dec ea_direct 6)
    ∷ (0x4a, on_acc inst_dec acc_a)
    ∷ (0x5a, on_acc inst_dec acc_b)
    ∷ (0x6a, rmw inst_dec ea_indexed 6)
    ∷ (0x7a, rmw inst_dec ea_extended 7)
    ∷ (0x0c, rmw inst_inc ea_direct 6)
    ∷ (0x4c, on_acc inst_inc acc_a)
    ∷ (0x5c, on_acc inst_inc acc_b)
    ∷ (0x6c, rmw inst_inc ea_indexed 6)
    ∷ (0x7c, rmw inst_inc ea_extended 7)
    ∷ []

-- tst, jmp, clr
unfoldable pub test_cases : Cases
test_cases =
    (0x0d, tst_at ea_direct 6)
    ∷ (0x4d, tst_acc acc_a)
    ∷ (0x5d, tst_acc acc_b)
    ∷ (0x6d, tst_at ea_indexed 6)
    ∷ (0x7d, tst_at ea_extended 7)
    ∷ (0x0e, jmp ea_direct 3)
    ∷ (0x6e, jmp ea_indexed 3)
    ∷ (0x7e, jmp ea_extended 4)
    ∷ (0x0f, clr_at ea_direct 6)
    ∷ (0x4f, clr_acc acc_a)
    ∷ (0x5f, clr_acc acc_b)
    ∷ (0x6f, clr_at ea_indexed 6)
    ∷ (0x7f, clr_at ea_extended 7)
    ∷ []
