-- ===== src/Assembler/Examples.antt =====
-- A small segment, assembled. Code: cmds/bintools/as4.c.
use fuzemsys.Base.{◌≡◌, refl, true, false, none, some, List, [], ◌∷◌, arith}
use fuzemsys.Assembler.{Target, Assembler, done}
use fuzemsys.Assembler.Records.{
  Item, byte, word, half, emit_all, segment_file, encode_all, emit_all-stream,
}

abbrev pub target_6809 : Target
target_6809 = record { bigendian = true; reloc_overflow_ok = false }

abbrev pub fresh : Assembler
fresh = record {
  pass = 3;
  segment = 1;
  dot = λ g. 0;
  truesize = λ g. 0;
  full = λ g. false;
  segsize = λ g. 0;
  segbase = λ g. 0;
  segpad = λ g. 0;
  stream = λ g. [];
  errors = [];
  noobj = false;
}

-- A byte that looks like REL_ESC, a word in the segment, the high byte of a symbol, and a constant.
abbrev pub items : List Item
items =
    byte 0xda
    ∷ word (record { a_value = 4; a_segment = 1; a_low = false; a_high = false; a_sym = none })
    ∷ half (record { a_value = 2; a_segment = 0; a_low = false; a_high = true; a_sym = some 0 })
    ∷ half (record { a_value = 9; a_segment = 0; a_low = false; a_high = false; a_sym = none })
    ∷ []

emit_all-stream_example :
    (a' : Assembler) × (emit_all target_6809 items fresh ≡ done tt a')
    × (segment_file 1 a' ≡ encode_all target_6809 items)
emit_all-stream_example =
    emit_all-stream target_6809 items fresh refl (λ e. omega (arith, e)) refl
      (tt, (refl, (tt, (tt, tt))))
