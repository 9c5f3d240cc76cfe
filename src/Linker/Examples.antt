-- ===== src/Linker/Examples.antt =====
-- A small segment, assembled and linked. Code: cmds/bintools/as4.c, cmds/bintools/ld.c.
use fuzemsys.Base.{
  ℕ, ◌+◌, ◌≡◌, refl, true, false, none, List, [], ◌∷◌, arith, if◌then◌else◌, ◌==◌, ◌++◌,
}
use fuzemsys.Base.Bits.{u16}
use fuzemsys.Assembler.Records.{emit_all, segment_file, final}
use fuzemsys.Assembler.Examples.{target_6809, fresh, items}
use fuzemsys.Linker.{Context, Linker, ld_absolute, ld_rflag, done}
use fuzemsys.Linker.Relocate.{ended, relocate_stream, relocate_rounds, relocate_symbol, Modifiers}
use fuzemsys.Linker.Takes.{puts}
use fuzemsys.Linker.Image.{image_all, total_size}
use fuzemsys.Linker.Program.{assembled-linked}
use fuzemsys.Linker.Fuel.{HasEnded, relocate_rounds-enough}
use fuzemsys.Linker.Unknown.{renumbered_and_more, renumbered, quoted_word}

abbrev object : Context
object = record {
  bigendian = true;
  base = λ g. if g == 1 then 0x100 else 0;
  syment =
      record { type = 0x41; value = 0x2ff; number = 5 }
      ∷ record { type = 0x80; value = 0; number = 6 }
      ∷ [];
  ldmode = ld_absolute;
  rawstream = true;
  split_id = false;
  wordmachine = false;
}

abbrev opened : List ℕ → Linker
opened bytes = record { input = bytes; dot = 0x100; op = []; relocf = none; err = 0; messages = [] }

assembled-linked_example :
    (l' : Linker) × (relocate_stream object 1
        (opened (segment_file 1 (final (emit_all target_6809 items fresh))))
      ≡ done ended l')
    × (l'.op ≡ puts (image_all object items) [])
    × (u16 l'.dot ≡ u16 (0x100 + total_size items))
    × (l'.err ≡ 0)
assembled-linked_example =
    assembled-linked object target_6809 items fresh 1
      (opened (segment_file 1 (final (emit_all target_6809 items fresh)))) refl refl refl
      (λ e. omega (arith, e)) refl (tt, (refl, (tt, (tt, tt))))
      (
        tt,
        (
          (omega arith, refl, refl),
          (
            (
              (record { type = 0x41; value = 0x2ff; number = 5 }, omega arith, refl, refl),
              refl,
              refl,
            ),
            ((omega arith, refl, refl), tt),
          ),
        ),
      )
      refl

image_test : image_all object items ≡ 0xda ∷ 0x01 ∷ 0x04 ∷ 0x03 ∷ 9 ∷ []
image_test = refl

relocate_rounds-enough_example :
    HasEnded (relocate_rounds object 9 1 (opened (0x12 ∷ 0xda ∷ 0x10 ∷ [])))
    × (relocate_rounds object 9 1 (opened (0x12 ∷ 0xda ∷ 0x10 ∷ []))
        ≡ relocate_stream object 1 (opened (0x12 ∷ 0xda ∷ 0x10 ∷ [])))
relocate_rounds-enough_example =
    relocate_rounds-enough object 1 9 (opened (0x12 ∷ 0xda ∷ 0x10 ∷ [])) (omega arith)

abbrev again : Context
again = record object { ldmode = ld_rflag; rawstream = false }

abbrev plain_word : Modifiers
plain_word = record { pcrel = false; overflow = true; high = false; code = 0x11 }

renumbered_and_more_example :
    (s' : Linker) × (relocate_symbol again plain_word false (opened (1 ∷ 0 ∷ 3 ∷ 4 ∷ []))
      ≡ done tt s')
    × (s'.input ≡ [])
    × (s'.op
        ≡ puts
            (renumbered plain_word (record { type = 0x80; value = 0; number = 6 })
              ++ (3 ∷ 4 ∷ [])
              ++ quoted_word true 1)
            [])
    × (s'.err ≡ 0)
renumbered_and_more_example =
    renumbered_and_more again plain_word (record { type = 0x80; value = 0; number = 6 }) 1 3 4 []
      (opened (1 ∷ 0 ∷ 3 ∷ 4 ∷ [])) refl refl refl (omega arith) refl refl refl
