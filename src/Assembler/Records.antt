-- ===== src/Assembler/Records.antt =====
-- What outab, outraw and outrab give the segment's stream on the last pass, and a segment that is made of
-- such calls. Code: cmds/bintools/as4.c (outab, outraw, outrab, outreloc, outeof).
use fuzemsys.Base.{
  rev_onto, rev_onto-rev_onto, ℕ, ◌≡◌, ◌≢◌, refl, ap, ◌∙◌, Bool, true, false, ◌&&◌, ◌||◌, not, none,
  some, List, [], ◌∷◌, ◌++◌, ◌==◌, if◌then◌else◌,
}
use mathlib.Core.Path.{subst}
use mathlib.Core.List.{append-nil}
use fuzemsys.ObjectFile.{rel_esc, rel_eof, rel_overflow, rel_high, absolute, bss}
use fuzemsys.Assembler.{
  Target, Addr, Assembler, Asm, Void, Outcome, done, jump, ◌>>=◌, ◌>>◌, pure, when, outbyte, outab,
  low_byte, outreloc, outraw, outrab, end_segment, constant_range, qerr,
}
use fuzemsys.Assembler.Emit.{
  quoted, constant_bytes, relocated_bytes, kind_bytes, Emits, bind-Emits, then-Emits, pure-Emits,
  outbyte-Emits, if-Emits, check_store_allowed-Emits, outab-Emits, constant-Emits, kind-Emits,
  relocated-Emits,
}

-- One call of the code that translates a line.
pub data Item : Type 0 where
  byte : ℕ → Item
  word half : Addr → Item

module _ (target : Target) where
  unfoldable pub emit : Item → Asm Void
  emit (byte b) = outab b
  emit (word a) = outraw target a >>= λ _. pure tt
  emit (half a) = outrab target a >>= λ _. pure tt

  -- The calls of a segment, with the end that outeof puts.
  unfoldable pub emit_all : List Item → Asm Void
  emit_all [] = end_segment
  emit_all (item ∷ items) = emit item >> emit_all items

  abbrev pub is_relocated : Addr → Bool
  is_relocated a = not (a.a_segment == absolute) || (elim a.a_sym [ none ↦ false | some _ ↦ true ])

  abbrev pub size_bits : Addr → ℕ → ℕ
  size_bits a bytes =
      if a.a_high then 0x10 else if a.a_low then 0 else if bytes == 1 then 0 else 0x10

  abbrev pub flag_bytes : Addr → List ℕ → List ℕ
  flag_bytes a rest =
      (if target.reloc_overflow_ok then rel_overflow ∷ [] else [])
      ++ ((if a.a_low && not target.reloc_overflow_ok then rel_overflow ∷ [] else [])
          ++ ((if a.a_high then rel_high ∷ [] else []) ++ rest))

  abbrev pub record_bytes : Addr → ℕ → List ℕ
  record_bytes a bytes =
      rel_esc
      ∷ flag_bytes a (
          kind_bytes a.a_sym (size_bits a bytes) a.a_segment
          ++ relocated_bytes target (low_byte target a) bytes)

  abbrev pub addr_bytes : Addr → ℕ → List ℕ
  addr_bytes a bytes =
      if is_relocated a then record_bytes a bytes else constant_bytes target a bytes

  -- The bytes of a call.
  abbrev pub encode : Item → List ℕ
  encode (byte b) = quoted b
  encode (word a) = addr_bytes a 2
  encode (half a) = addr_bytes a 1

  abbrev pub encode_all : List Item → List ℕ
  encode_all [] = rel_esc ∷ rel_eof ∷ []
  encode_all (item ∷ items) = encode item ++ encode_all items

  -- A word is not the high or the low half of a value.
  abbrev pub HasSize : Item → Type 0
  HasSize (byte b) = Unit
  HasSize (word a) = (a.a_low || a.a_high) ≡ false
  HasSize (half a) = Unit

  abbrev pub HaveSizes : List Item → Type 0
  HaveSizes [] = Unit
  HaveSizes (item ∷ items) = HasSize item × HaveSizes items

  module _ (g : ℕ) (stored : g ≢ bss) where
    flag-Emits :
        {B : Type 0} (test : Bool) (b : ℕ) (k : Asm B) (cs : List ℕ)
        → Emits g (b ∷ []) (outbyte b)
        → Emits g cs k
        → Emits g ((if test then b ∷ [] else []) ++ cs) (when test (outbyte b) >> k)
    flag-Emits true b k cs hb h = then-Emits g stored (b ∷ []) cs hb h
    flag-Emits false b k cs hb h = then-Emits g stored [] cs (pure-Emits g stored tt) h

    last_value-Emits :
        {A B : Type 0} (m : Asm A) (b : B) {bs : List ℕ}
        → Emits g bs m
        → Emits g bs (m >>= λ _. pure b)
    last_value-Emits m b {bs} h =
        subst (λ (l : List ℕ). Emits g l (m >>= λ _. pure b)) (append-nil bs)
          (bind-Emits g stored m (λ _. pure b) bs [] h (λ _. pure-Emits g stored b))

    outreloc-Emits :
        (a : Addr) (bytes : ℕ)
        → (not (bytes == 1) && (a.a_low || a.a_high)) ≡ false
        → Emits g (addr_bytes a bytes) (outreloc target a bytes)
    unfolding outreloc
    outreloc-Emits a bytes fits =
        if-Emits g stored (is_relocated a) (record_bytes a bytes) (constant_bytes target a bytes)
          (then-Emits g stored (rel_esc ∷ []) _ (outbyte-Emits g stored rel_esc) (
            then-Emits g stored [] _ (check_store_allowed-Emits g stored 1) (
              flag-Emits target.reloc_overflow_ok rel_overflow _ _
                (outbyte-Emits g stored rel_overflow)
                (then-Emits g stored [] _ no_jump (
                  flag-Emits (a.a_low && not target.reloc_overflow_ok) rel_overflow _ _
                    (outbyte-Emits g stored rel_overflow)
                    (flag-Emits a.a_high rel_high _ _ (outbyte-Emits g stored rel_high) (
                      then-Emits g stored _ _ (kind-Emits g stored target a.a_sym _ a.a_segment) (
                        last_value-Emits _ _
                          (relocated-Emits g stored target (low_byte target a) bytes)))))))))
          (last_value-Emits _ _ (constant-Emits g stored target a bytes))
      where
        no_jump :
            Emits g [] (when (not (bytes == 1) && (a.a_low || a.a_high)) (qerr constant_range))
        no_jump = rw fits (pure-Emits g stored tt)

    item-Emits : (item : Item) → HasSize item → Emits g (encode item) (emit item)
    unfolding emit outraw outrab
    item-Emits (byte b) h = outab-Emits g stored b
    item-Emits (word a) h = last_value-Emits _ _ (outreloc-Emits a 2 h)
    item-Emits (half a) h = last_value-Emits _ _ (outreloc-Emits a 1 refl)

    all-Emits : (items : List Item) → HaveSizes items → Emits g (encode_all items) (emit_all items)
    unfolding emit_all end_segment
    all-Emits [] h =
        then-Emits g stored (_ ∷ []) (_ ∷ []) (outbyte-Emits g stored rel_esc)
          (outbyte-Emits g stored rel_eof)
    all-Emits (item ∷ items) h =
        then-Emits g stored (encode item) (encode_all items) (item-Emits item h.0)
          (all-Emits items h.1)

-- A segment's part of the object file: what it was given, in order.
abbrev pub segment_file : ℕ → Assembler → List ℕ
segment_file g a = rev_onto (a.stream g) []

-- The state that a call leaves, whichever way it ends.
abbrev pub final : {A : Type 0} → Outcome A → Assembler
final (done x a) = a
final (jump a) = a

-- On the last pass, in a segment that is written and is still empty, the calls for a list of items end
-- without a jump, and the segment's part of the file is the items' encodings with REL_ESC REL_EOF at the end.
pub emit_all-stream :
    (target : Target) (items : List Item) (a : Assembler)
    → a.pass ≡ 3
    → a.segment ≢ bss
    → a.stream a.segment ≡ []
    → HaveSizes target items
    → (a' : Assembler) × (emit_all target items a ≡ done tt a')
      × (segment_file a.segment a' ≡ encode_all target items)
emit_all-stream target items a last stored empty sizes =
    let (_, a', e, w) = (all-Emits target a.segment stored items sizes).runs a last refl in
    let bytes = encode_all target items in
    (
      a',
      e,
      ap (λ (l : List ℕ). rev_onto l []) (w.written ∙ ap (rev_onto bytes) empty)
          ∙ rev_onto-rev_onto bytes [] []
          ∙ append-nil bytes,
    )
