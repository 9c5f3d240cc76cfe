-- ===== src/Linker/Linked.antt =====
-- A segment from the assembler's calls to the bytes that the linker puts in a raw file. Code:
-- cmds/bintools/as4.c (outab, outraw, outrab, outeof), cmds/bintools/ld.c (relocate_stream).
use fuzemsys.Base.{
  ℕ, ◌+◌, ◌/◌, ◌^◌, ◌≡◌, refl, sym, ap, ◌∙◌, Bool, true, false, ◌&&◌, ◌||◌, not, Option, none, some,
  List, [], ◌∷◌, ◌++◌, ◌==◌, if◌then◌else◌, Bool-cases, inl, inr, arith,
}
use mathlib.Core.Path.{subst, transport}
use fuzemsys.Base.Bits.{u8, u16}
use fuzemsys.ObjectFile.{rel_esc, rel_rel, rel_overflow, absolute}
use fuzemsys.Assembler.{Target, Addr}
use fuzemsys.Assembler.Emit.{quoted, word_of, plain, kind_bytes}
use fuzemsys.Assembler.Records.{
  Item, byte, word, half, flag_bytes, record_bytes, addr_bytes, encode, HasSize,
}
use fuzemsys.Linker.{Context}
use fuzemsys.Linker.Moves.{sized_bytes, word_bytes}
use fuzemsys.Linker.Records.{escape-Takes, byte-Takes}
use fuzemsys.Linker.Rounds.{Rounds, one-Rounds, append-Rounds}
use fuzemsys.Linker.Located.{IsLocated, delta, located-Takes}
use fuzemsys.Linker.Image.{IsPlace, linked_value, image, item_size, Links, ItemLinks}

module _ (o : Context) where
  module _ (raw : o.rawstream ≡ true) (segment : ℕ) where
    convert :
        {bs bs' ws ws' : List ℕ} {n n' : ℕ}
        → bs ≡ bs'
        → ws ≡ ws'
        → n ≡ n'
        → Rounds o segment bs ws n
        → Rounds o segment bs' ws' n'
    convert e₁ e₂ e₃ h = transport (λ i. Rounds o segment (e₁ i) (e₂ i) (e₃ i)) h

    one_byte : {v w : ℕ} → v ≡ w → v ∷ [] ≡ w ∷ []
    one_byte e = ap (λ (b : ℕ). b ∷ []) e

    word_mod : (v w : ℕ) → u16 v ≡ u16 w → word_bytes o v ≡ word_bytes o w
    word_mod v w e =
        let low : u8 v ≡ u8 w = omega (arith, e) in
        let high : u8 (v / 2 ^ 8) ≡ u8 (w / 2 ^ 8) = omega (arith, e) in
        λ i. if o.bigendian then high i ∷ low i ∷ [] else low i ∷ high i ∷ []

    -- A low half is marked once, whichever test marks it.
    flags_low :
        (ok : Bool) (bs : List ℕ)
        → rel_esc ∷ rel_overflow ∷ bs
          ≡ rel_esc
            ∷ ((if ok then rel_overflow ∷ [] else [])
                ++ ((if true && not ok then rel_overflow ∷ [] else []) ++ bs))
    flags_low true bs = refl
    flags_low false bs = refl

    quoted-Rounds : (b : ℕ) → Rounds o segment (quoted b) (u8 b ∷ []) 1
    quoted-Rounds b = elim (Bool-cases (u8 b == rel_esc)) [
      | inl e ↦
          subst
            (λ (x : ℕ).
              Rounds o segment (x ∷ (if x == rel_esc then rel_rel ∷ [] else [])) (x ∷ []) 1)
            (sym (ground (arith, e)))
            (one-Rounds o segment rel_esc (rel_rel ∷ []) (rel_esc ∷ []) 1
              (escape-Takes o raw segment))
      | inr e ↦ rw e (
          convert refl (one_byte (omega arith)) refl
            (one-Rounds o segment _ [] _ 1 (byte-Takes o raw segment (u8 b) e)))
    ]

    no_delta :
        (place : Option ℕ) (seg : ℕ)
        → (not (seg == absolute) || (elim place as (λ _. Bool) [ none ↦ false | some _ ↦ true ]))
          ≡ false
        → delta o place seg ≡ 0
    no_delta none seg e = let here : (seg == absolute) ≡ true = ground (arith, e) in rw here refl
    no_delta (some number) seg e = absurd (ground (arith, e))

    place-IsLocated :
        (place : Option ℕ) (seg : ℕ)
        → IsPlace o place seg
        → (not (seg == absolute) || (elim place as (λ _. Bool) [ none ↦ false | some _ ↦ true ]))
          ≡ true
        → IsLocated o place seg
    place-IsLocated none seg h e = ((λ z. ground (arith, z, e)), h)
    place-IsLocated (some number) seg h e = h

    module _ (target : Target) (same : target.bigendian ≡ o.bigendian) where
      word_same : (v : ℕ) → word_of target (plain target) v ≡ word_bytes o v
      word_same v = rw same refl

      constant_word : (v : ℕ) → Rounds o segment (word_of target quoted v) (word_bytes o v) 2
      constant_word v =
          rw same
            (elim o.bigendian
              as (λ b.
                Rounds o segment
                  (if b then quoted (v / 2 ^ 8) ++ quoted v else quoted v ++ quoted (v / 2 ^ 8))
                  (if b then u8 (v / 2 ^ 8) ∷ u8 v ∷ [] else u8 v ∷ u8 (v / 2 ^ 8) ∷ []) 2) [
                    | true ↦
                        append-Rounds o segment _ _ 1 _ _ 1 (quoted-Rounds (v / 2 ^ 8))
                          (quoted-Rounds v)
                    | false ↦
                        append-Rounds o segment _ _ 1 _ _ 1 (quoted-Rounds v)
                          (quoted-Rounds (v / 2 ^ 8))
                  ])

      choose :
          (test : Bool) {yes other ws : List ℕ} {n : ℕ}
          → (test ≡ true → Rounds o segment yes ws n)
          → (test ≡ false → Rounds o segment other ws n)
          → Rounds o segment (if test then yes else other) ws n
      choose true h h' = h refl
      choose false h h' = h' refl

      -- The relocation of a word, of a byte, and of either half of a value.
      abbrev at : ℕ → ℕ → Option ℕ → Bool → Bool → Addr
      at value seg place low high = record {
        a_value = value;
        a_segment = seg;
        a_low = low;
        a_high = high;
        a_sym = place;
      }

      module _ (value seg : ℕ) (place : Option ℕ) (located : IsLocated o place seg) where
        relocated_word :
            Links o target (at value seg place false false) 2
            → Rounds o segment
                (record_bytes target (at value seg place false false) 2)
                (word_bytes o (linked_value o (at value seg place false false)))
                2
        relocated_word (_, _, fits) =
            convert
              (ap
                (λ (l : List ℕ).
                  rel_esc
                  ∷ flag_bytes target (at value seg place false false)
                      (kind_bytes place 0x10 seg ++ l))
                (sym (word_same value)))
              (word_mod _ _ (omega arith)) refl
              (one-Rounds o segment rel_esc _ _ _ (
                located-Takes o raw segment target.reloc_overflow_ok false true place seg value
                  located fits))

        relocated_byte :
            Links o target (at value seg place false false) 1
            → Rounds o segment
                (record_bytes target (at value seg place false false) 1)
                (u8 (linked_value o (at value seg place false false)) ∷ [])
                1
        relocated_byte (_, _, fits) = convert refl (one_byte (omega arith)) refl (
            one-Rounds o segment rel_esc _ _ _ (
              located-Takes o raw segment target.reloc_overflow_ok false false place seg value
                located fits))

        relocated_low :
            Rounds o segment
              (record_bytes target (at value seg place true false) 1)
              (u8 (linked_value o (at value seg place true false)) ∷ [])
              1
        relocated_low =
            convert (flags_low target.reloc_overflow_ok _) (one_byte (omega arith)) refl (
              one-Rounds o segment rel_esc _ _ _
                (located-Takes o raw segment true false false place seg (u8 value) located refl))

        relocated_high :
            Rounds o segment
              (record_bytes target (at value seg place false true) 1)
              (u8 (linked_value o (at value seg place false true) / 2 ^ 8) ∷ [])
              1
        relocated_high =
            convert
              (ap
                (λ (l : List ℕ).
                  rel_esc
                  ∷ flag_bytes target (at value seg place false true)
                      (kind_bytes place 0x10 seg ++ l))
                (sym (word_same value)))
              (ap (λ (c : Bool). sized_bytes o (if c then 1 else 2) (if c then r / 2 ^ 8 else r))
                  raw
                ∙ one_byte (omega arith))
              (ap (λ (c : Bool). if c then 1 else 2) raw)
              (one-Rounds o segment rel_esc _ _ _ (
                located-Takes o raw segment target.reloc_overflow_ok true true place seg value
                  located (ground arith)))
          where
            r : ℕ
            r = u16 (u16 value + delta o place seg)

      word-Rounds :
          (value seg : ℕ) (low high : Bool) (place : Option ℕ)
          → (low || high) ≡ false
          → Links o target (at value seg place low high) 2
          → Rounds o segment
              (addr_bytes target (at value seg place low high) 2)
              (word_bytes o (linked_value o (at value seg place low high)))
              2
      word-Rounds value seg false false place sizes h =
          choose _ (λ e. relocated_word value seg place (place-IsLocated place seg h.0 e) h)
            (λ e.
              convert refl (word_mod _ _ (let z = no_delta place seg e in omega (arith, z))) refl
                (constant_word value))
      word-Rounds value seg false true place sizes h = absurd (ground (arith, sizes))
      word-Rounds value seg true high place sizes h = absurd (ground (arith, sizes))

      half-Rounds :
          (value seg : ℕ) (low high : Bool) (place : Option ℕ)
          → Links o target (at value seg place low high) 1
          → Rounds o segment
              (addr_bytes target (at value seg place low high) 1)
              (image o (half (at value seg place low high)))
              1
      half-Rounds value seg false false place h =
          choose _ (λ e. relocated_byte value seg place (place-IsLocated place seg h.0 e) h)
            (λ e.
              convert refl (one_byte (let z = no_delta place seg e in omega (arith, z))) refl
                (quoted-Rounds value))
      half-Rounds value seg true false place h =
          choose _ (λ e. relocated_low value seg place (place-IsLocated place seg h.0 e))
            (λ e.
              convert refl (one_byte (let z = no_delta place seg e in omega (arith, z))) refl
                (quoted-Rounds (u8 value)))
      half-Rounds value seg false true place h =
          choose _ (λ e. relocated_high value seg place (place-IsLocated place seg h.0 e))
            (λ e.
              convert refl (one_byte (let z = no_delta place seg e in omega (arith, z))) refl
                (quoted-Rounds (value / 2 ^ 8)))
      half-Rounds value seg true true place h = absurd (ground (arith, h.1))

      pub item-Rounds :
          (item : Item)
          → HasSize target item
          → ItemLinks o target item
          → Rounds o segment (encode target item) (image o item) (item_size item)
      item-Rounds (byte b) sizes h = quoted-Rounds b
      item-Rounds (word a) sizes h =
          word-Rounds a.a_value a.a_segment a.a_low a.a_high a.a_sym sizes h
      item-Rounds (half a) sizes h = half-Rounds a.a_value a.a_segment a.a_low a.a_high a.a_sym h
