-- ===== src/Linker/Image.antt =====
-- The bytes that the assembler's calls stand for in the linked program, and when they can be linked. Code:
-- cmds/bintools/as4.c (outab, outraw, outrab), cmds/bintools/ld.c (relocate_stream).
use fuzemsys.Base.{
  ℕ, ◌+◌, ◌/◌, ◌^◌, ◌<◌, ◌≡◌, false, ◌&&◌, ◌||◌, not, Option, none, some, List, [], ◌∷◌, ◌++◌,
  if◌then◌else◌,
}
use fuzemsys.Base.Bits.{u8, u16}
use fuzemsys.ObjectFile.{oseg}
use fuzemsys.Assembler.{Target, Addr}
use fuzemsys.Assembler.Records.{Item, byte, word, half}
use fuzemsys.Linker.{Context}
use fuzemsys.Linker.Moves.{sized, word_bytes}
use fuzemsys.Linker.Records.{exceeds}
use fuzemsys.Linker.Located.{IsLocated, delta}

abbrev pub item_size : Item → ℕ
item_size (byte b) = 1
item_size (word a) = 2
item_size (half a) = 1

abbrev pub total_size : List Item → ℕ
total_size [] = 0
total_size (item ∷ items) = item_size item + total_size items

module _ (o : Context) where
  -- The place of an address: an absolute value, a segment there is, or a symbol that is known.
  abbrev pub IsPlace : Option ℕ → ℕ → Type 0
  IsPlace none seg = seg < oseg
  IsPlace (some number) seg = IsLocated o (some number) seg

  -- The value that an address has in the linked program.
  abbrev pub linked_value : Addr → ℕ
  linked_value a = a.a_value + delta o a.a_sym a.a_segment

  -- The bytes of the program that a call stands for.
  abbrev pub image : Item → List ℕ
  image (byte b) = u8 b ∷ []
  image (word a) = word_bytes o (linked_value a)
  image (half a) = u8 (if a.a_high then linked_value a / 2 ^ 8 else linked_value a) ∷ []

  abbrev pub image_all : List Item → List ℕ
  image_all [] = []
  image_all (item ∷ items) = image item ++ image_all items

  module _ (target : Target) where
    -- The address has a place, is not both halves at once, and passes the check of its size, where the
    -- assembler has not turned that off.
    abbrev pub Links : Addr → ℕ → Type 0
    Links a size =
        IsPlace a.a_sym a.a_segment
        × ((a.a_low && a.a_high) ≡ false)
        × (((not (a.a_low || target.reloc_overflow_ok) && not a.a_high)
              && exceeds size (delta o a.a_sym a.a_segment)
                  (u16 (sized size a.a_value + delta o a.a_sym a.a_segment)))
            ≡ false)

    abbrev pub ItemLinks : Item → Type 0
    ItemLinks (byte b) = Unit
    ItemLinks (word a) = Links a 2
    ItemLinks (half a) = Links a 1

    abbrev pub AllLink : List Item → Type 0
    AllLink [] = Unit
    AllLink (item ∷ items) = ItemLinks item × AllLink items
