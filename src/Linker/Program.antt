-- ===== src/Linker/Program.antt =====
-- A segment from the assembler's calls to the bytes that the linker puts in a raw file. Code:
-- cmds/bintools/as4.c (outab, outraw, outrab, outeof), cmds/bintools/ld.c (relocate_stream).
use fuzemsys.Base.{ℕ, ◌+◌, ◌≡◌, ◌≢◌, refl, sym, ap, ◌∙◌, true, List, [], ◌∷◌, ◌++◌}
use fuzemsys.Base.Bits.{u16}
use fuzemsys.ObjectFile.{rel_esc, rel_eof, bss}
use fuzemsys.Assembler.{Target, Assembler}
use fuzemsys.Assembler.Records.{Item, encode, encode_all, HaveSizes, emit_all}
use mathlib.Core.List.{append_assoc}
use fuzemsys.Linker.{done, Context, Linker}
use fuzemsys.Linker.Relocate.{relocate_stream, ended}
use fuzemsys.Linker.Takes.{Moved}
use fuzemsys.Linker.Rounds.{Rounds, append-Rounds, nil-Rounds, stream_lem}
use fuzemsys.Assembler.Records.{emit_all-stream, segment_file, final}
use fuzemsys.Assembler.{Void, Outcome}
use fuzemsys.Linker.Takes.{puts}
use fuzemsys.Linker.Image.{image_all, total_size, AllLink}
use fuzemsys.Linker.Linked.{item-Rounds}

module _ (o : Context) (raw : o.rawstream ≡ true) (segment : ℕ) (target : Target)
    (same : target.bigendian ≡ o.bigendian) where
  abbrev encode_items : List Item → List ℕ
  encode_items [] = []
  encode_items (item ∷ items) = encode target item ++ encode_items items

  encode_all-items :
      (items : List Item) → encode_all target items ≡ encode_items items ++ (rel_esc ∷ rel_eof ∷ [])
  encode_all-items [] = refl
  encode_all-items (item ∷ items) =
      ap (λ (l : List ℕ). encode target item ++ l) (encode_all-items items)
      ∙ sym (append_assoc (encode target item) (encode_items items) (rel_esc ∷ rel_eof ∷ []))

  items-Rounds :
      (items : List Item)
      → HaveSizes target items
      → AllLink o target items
      → Rounds o segment (encode_items items) (image_all o items) (total_size items)
  items-Rounds [] sizes h = nil-Rounds o segment
  items-Rounds (item ∷ items) sizes h =
      append-Rounds o segment _ _ _ _ _ _ (item-Rounds o raw segment target same item sizes.0 h.0)
        (items-Rounds items sizes.1 h.1)

  linked :
      (items : List Item) (s : Linker)
      → HaveSizes target items
      → AllLink o target items
      → s.input ≡ encode_all target items
      → (s' : Linker) × (relocate_stream o segment s ≡ done ended s')
        × Moved [] (image_all o items) (total_size items) s s'
  linked items s sizes h e =
      stream_lem o segment _ _ _ s (items-Rounds items sizes h) (e ∙ encode_all-items items)

-- In a raw link of an object in the target's byte order, a segment that the assembler wrote on its last pass
-- comes out as the bytes that its items stand for, each address as its value plus the base of its segment
-- or the value of its symbol, low byte, high byte or both; the position moves by the items' sizes, nothing is
-- reported and the loop ends. Every address has a segment below OSEG or a symbol of the object that is
-- known, a word is not the half of a value, and what is checked for overflow does not overflow.
pub assembled-linked :
    (o : Context) (target : Target) (items : List Item) (a : Assembler) (segment : ℕ) (l : Linker)
    → o.rawstream ≡ true
    → target.bigendian ≡ o.bigendian
    → a.pass ≡ 3
    → a.segment ≢ bss
    → a.stream a.segment ≡ []
    → HaveSizes target items
    → AllLink o target items
    → l.input ≡ segment_file a.segment (final (emit_all target items a))
    → (l' : Linker) × (relocate_stream o segment l ≡ done ended l')
      × (l'.op ≡ puts (image_all o items) l.op)
      × (u16 l'.dot ≡ u16 (l.dot + total_size items))
      × (l'.err ≡ l.err)
assembled-linked o target items a segment l raw same last stored empty sizes links e =
    let (_, e', bytes) = emit_all-stream target items a last stored empty sizes in
    let file = ap (λ (x : Outcome Void). segment_file a.segment (final x)) e' ∙ bytes in
    let (l', run, moved) = linked o raw segment target same items l sizes links (e ∙ file) in
    (l', run, moved.wrote, moved.position, moved.quiet)
