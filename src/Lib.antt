-- ===== src/Lib.antt =====
-- Three programs of the FUZIX cross tools: the 6809 emulator (the processor, its memory, the breakpoint
-- table and the command line of its monitor, and its symbol map); the assembler's output and the
-- linker; and reloc, which puts relocations into a binary.
--
-- The emulator. `emu6809` runs FUZIX programs for the 6809. Its main loop calls e6809_sstep of
-- emulators/e6809.c, which asks the breakpoint table of emulators/emumon.c whether to stop, takes
-- the interrupts that its arguments signal, and executes one instruction against the memory of
-- emulators/emu6809.c. A write passes through write8, which asks the same table for a write
-- breakpoint; four addresses are not memory but print or exit. The instruction swi is a system
-- call: do_syscall of emulators/syscalls.c. The monitor splits a line into words (str_scan), looks up the
-- command (get_command), and reads addresses with parse_addr, which asks the symbol map; it prints
-- addresses with get_symbol_and_offset of the same map.
--
-- The assembler and the linker. as writes an object file in which each segment is a stream of bytes: the
-- program's bytes, with REL_ESC quoted, and records of what is to be relocated, which outreloc writes. ld
-- enters the symbols of the objects into a hash table (find_alloc_symbol), gives segments, objects and symbols
-- their addresses (set_segment_bases), reads the stream of each segment with relocate_stream, adds the bases of segments and the values of
-- symbols, and puts the bytes, or a stream to be relocated again, and a list of what is left to be relocated when the
-- program is loaded, which reloc puts behind the program's data.
--
-- The files.
--   Console        what is printed, as events
--   Breakpoints    emulators/emumon.c: brkpointlist, ignored_addr, remove_breakpoint,
--                  remove_all_breakpoints, set_breakpoint, ignore_breakpoint, is_breakpoint, monitor_init
--   E6809/State    the static variables of emulators/e6809.c and of emulators/emu6809.c as the
--                  record Machine, and the operations on it: an operation is done, with a value and a
--                  machine, or has called exit, with a code and a machine
--   E6809/Bus      e6809_read8, e6809_write8, read8 to write16, push8 to pull16, pc_read8, pc_read16
--   E6809/Flags    get_cc to sign_extend; Flags/View has the condition codes as eight digits
--   E6809/Alu      inst_neg to inst_sub16; Alu/Bytes and Alu/Words have their theorems
--   E6809/Address  ea_direct, ea_extended, ea_indexed: the switch of ea_indexed is index_mode, which
--                  names the case, and index_body, which runs it
--   E6809/Stack    inst_bra8, inst_bra16, inst_psh, inst_pul
--   E6809/Transfer exgtfr_read, exgtfr_write, inst_exg, inst_tfr
--   E6809/Cases    the switch of e6809_sstep: a table of op codes and bodies for each part of it, and
--                  one definition for each body that the switch repeats
--   E6809/Step     the two interrupts, e6809_sstep, e6809_reset, e6809_get_regs; Step/Frame and Step/Fast are
--                  about the fast interrupt and rti, Step/Waiting about cwai, Step/Stepping about
--                  breakpoints
--   E6809/Valid    the widths of the variables as an invariant
--   ObjectFile     cmds/bintools/obj.h: the constants of the object file
--   Assembler      cmds/bintools/as4.c: outbyte, reservebyte, check_store_allowed, sizecheck, outab, outabyte,
--                  outab2, outreloc, outraw, outrab, outabchk2, outrabrel, outrawrel, outabsolute, the end of a
--                  segment in outeof; err, aerr and qerr of cmds/bintools/as2.c. Assembler/Emit has the bytes
--                  of each call, Assembler/Records those of a sequence of calls
--   Linker         cmds/bintools/ld.c: the reads and writes of relocate_stream; Linker/Relocate has
--                  relocate_stream, one definition for each kind of record. Linker/Takes and Linker/Records
--                  say what each operation takes and puts in a raw link, Linker/Image what a call of the
--                  assembler stands for, Linker/Program joins the two programs, Linker/Fuel counts rounds,
--                  Linker/Unknown is the record of an unknown symbol.
--                  Linker/Table has the symbol table (hash_symbol to renumber_symbols), Linker/Lookup reads it
--                  as a map and Linker/Order has two objects that share a symbol. Linker/Layout has
--                  append_segment, order_segments and the loops of set_segment_bases, Linker/Bases
--                  set_segment_bases; Linker/Append and Linker/Apart are about the places
--   Reloc          cmds/bintools/reloc.c: main; Reloc/Format is the format of what it writes, which Reloc/Decode
--                  reads back, Reloc/ZeroPage has its first
--                  block
--   Commands       emulators/emumon.c: str_scan, get_command, cmd_table; Commands/Words is about str_scan.
--                  Commands/Strtol is strtol, Commands/Address has parse_addr, Commands/Print reads a printed
--                  number or symbol, and Commands/Back joins it with the symbol map
--   Symbols        emulators/mapfile.c: get_sym_address, get_sym_end_address, get_symbol_and_offset, for
--                  the names and addresses that the monitor and the log file show
--
-- Numbers. An `unsigned` is a natural number that is reduced modulo 2 ^ 32 where C reduces it, a
-- uint16_t modulo 2 ^ 16, and `~x` is 2 ^ 32 - 1 - x. An int of the linker has 32 bits. `cycles`, which e6809_sstep passes to its
-- callees by pointer, is a field of the machine. `unsigned *` parameters are the type Pointer.
-- The loop of relocate_stream runs on fuel, one round for each byte that is left and one more; every round
-- takes a byte. To run out of rounds, or of the calls of parse_addr, is an outcome of its own, which the code
-- does not have.
--
-- parse_addr calls itself for what stands behind a +; the calls have a bound, the length of the string and
-- one more, and each is for a shorter string. The loops of reloc over a gap move on by 254, so they have fewer
-- rounds than the gap; the test of the loop of the zero page does not hold for a position of 0, so it has
-- no round.
--
-- Parameters. The monitor's command loop and do_syscall are the record Host, an argument of e6809_sstep.
-- The byte order of an assembler's target and TARGET_RELOC_OVERFLOW_OK, which as.h defines, are the
-- record Target.
--
-- Not modelled. The log file and the trace of interrupts, which only print; the disassembler; loading a
-- program and parsing the options; reading and sorting the map file, for which IsTable stands; the
-- monitor's command loop; the system calls; the parser and the instructions of the assembler; the linker's
-- libraries and files; the Z80 emulator, whose core
-- is a third-party library; the compiler, the shell, the commands and the C library of the repository.
pub mod Base
pub mod Console
pub mod Breakpoints
pub mod Symbols
pub mod E6809
pub mod ObjectFile
pub mod Assembler
pub mod Linker
pub mod Reloc
pub mod Commands
