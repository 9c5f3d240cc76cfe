-- ===== src/E6809/Transfer.antt =====
-- Register exchange and transfer. Code: emulators/e6809.c (exgtfr_read to inst_tfr).
use fuzemsys.Base.{ℕ, ◌/◌, ◌^◌, bit_and, bit_or, ◌==◌, if◌then◌else◌}
use fuzemsys.Base.Bits.{u16}
use fuzemsys.Console.{print_exgtfr}
use fuzemsys.E6809.State.{Op, Void, ◌>>=◌, ◌>>◌, gets, modify, call, print_exit}
use fuzemsys.E6809.Bus.{pc_read8}
use fuzemsys.E6809.Flags.{get_reg_d, set_reg_d}

unfoldable pub exgtfr_read : ℕ → Op ℕ
exgtfr_read reg =
    if reg == 0x0
    then gets get_reg_d
    else if reg == 0x1
    then gets (λ s. s.reg_x)
    else if reg == 0x2
    then gets (λ s. s.reg_y)
    else if reg == 0x3
    then gets (λ s. s.reg_u)
    else if reg == 0x4
    then gets (λ s. s.reg_s)
    else if reg == 0x5
    then gets (λ s. s.reg_pc)
    else if reg == 0x8
    then gets (λ s. bit_or 0xff00 s.reg_a)
    else if reg == 0x9
    then gets (λ s. bit_or 0xff00 s.reg_b)
    else if reg == 0xa
    then gets (λ s. bit_or 0xff00 s.reg_cc)
    else if reg == 0xb
    then gets (λ s. bit_or 0xff00 s.reg_dp)
    else print_exit (print_exgtfr reg) 1

unfoldable pub exgtfr_write : ℕ → ℕ → Op Void
exgtfr_write reg v =
    if reg == 0x0
    then modify (set_reg_d v)
    else if reg == 0x1
    then modify (λ s. record s { reg_x = v })
    else if reg == 0x2
    then modify (λ s. record s { reg_y = v })
    else if reg == 0x3
    then modify (λ s. record s { reg_u = v })
    else if reg == 0x4
    then modify (λ s. record s { reg_s = v })
    else if reg == 0x5
    then modify (λ s. record s { reg_pc = u16 v })
    else if reg == 0x8
    then modify (λ s. record s { reg_a = v })
    else if reg == 0x9
    then modify (λ s. record s { reg_b = v })
    else if reg == 0xa
    then modify (λ s. record s { reg_cc = v })
    else if reg == 0xb
    then modify (λ s. record s { reg_dp = v })
    else print_exit (print_exgtfr reg) 1

unfoldable pub inst_exg : Op Void
inst_exg = do
  op ← call pc_read8
  tmp ← exgtfr_read (bit_and op 0xf)
  v ← exgtfr_read (op / 2 ^ 4)
  exgtfr_write (bit_and op 0xf) v
  exgtfr_write (op / 2 ^ 4) tmp

unfoldable pub inst_tfr : Op Void
inst_tfr = do op ← call pc_read8; v ← exgtfr_read (op / 2 ^ 4); exgtfr_write (bit_and op 0xf) v
