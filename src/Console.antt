-- ===== src/Console.antt =====
-- What the emulator writes to its standard output and error streams, as events.
-- Code: emulators/emu6809.c (e6809_write8), emulators/e6809.c (write8, e6809_sstep and its callees),
-- emulators/emumon.c (set_breakpoint).
use fuzemsys.Base.{ℕ}
use fuzemsys.Base.Int.{ℤ}

pub data Output : Type 0 where
  -- putchar(val)
  put_char : ℕ → Output
  -- printf("%d\n", x)
  print_int : ℤ → Output
  -- fprintf(stderr, "***FAIL %u\n", val)
  print_fail : ℕ → Output
  -- printf("Write at $%04X\n", address)
  print_write_at : ℕ → Output
  -- printf("No free breakpoint slot to set a breakpoint!\n")
  print_no_slot : Output
  -- printf("undefined post-byte\n")
  print_post_byte : Output
  -- printf("illegal exgtfr reg %.1x\n", reg)
  print_exgtfr : ℕ → Output
  -- printf("unknown page-N op code: %.2x\n", op): the page and the op code
  print_unknown : ℕ → ℕ → Output
