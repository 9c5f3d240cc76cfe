-- ===== src/Linker/Located.antt =====
-- A relocation record that the assembler writes, as the loop of the linker reads it. Code:
-- cmds/bintools/ld.c (relocate_stream), cmds/bintools/as4.c (outreloc).
use fuzemsys.Base.{
  ℕ, ◌+◌, ◌^◌, ◌<◌, bit_and, bit_or, ◌≡◌, ◌≢◌, refl, Bool, true, false, ◌&&◌, ◌||◌, not, Option,
  none, some, [], ◌∷◌, ◌++◌, ◌==◌, ltb, leb, if◌then◌else◌, get_elem?, all_below, all_below_sound,
  arith,
}
use fuzemsys.Base.Bits.{u8, u16}
use fuzemsys.ObjectFile.{
  rel_esc, rel_rel, rel_eof, rel_org, rel_pcr, rel_overflow, rel_high, rel_simple, rel_symbol,
  absolute, oseg, s_unknown,
}
use fuzemsys.Assembler.Emit.{kind_bytes}
use fuzemsys.Linker.{Context, Symbol, ◌>>=◌, io_readb}
use fuzemsys.Linker.Relocate.{go_on, cut, cut_size, reloc_size, relocate_byte}
use fuzemsys.Linker.Takes.{Takes}
use fuzemsys.Linker.Moves.{sized, sized_bytes}
use fuzemsys.Linker.Records.{
  exceeds, IsRecord, relocate_simple-Takes, relocate_symbol-Takes, record-Takes,
}

-- REL_SIMPLE with the segment, and the bit for a word.
abbrev pub simple_code : Bool → ℕ → ℕ
simple_code wide seg = u8 (bit_or (if wide then 0x10 else 0) (bit_or rel_simple seg))

false_by_not : (b : Bool) → not b ≡ true → b ≡ false
false_by_not false h = refl
false_by_not true h = absurd (ground (arith, h))

-- Of the few segments there are, each is tried.
module _ (wide : Bool) (seg : ℕ) (small : seg < oseg) where
  each :
      (test : Bool → ℕ → Bool)
      → all_below oseg (test true) ≡ true
      → all_below oseg (test false) ≡ true
      → test wide seg ≡ true
  each test of_true of_false = elim wide as (λ w. test w seg ≡ true) [
    | true ↦ all_below_sound oseg (test true) seg of_true small
    | false ↦ all_below_sound oseg (test false) seg of_false small
  ]

  simple-IsRecord : IsRecord (simple_code wide seg)
  unfolding all_below
  simple-IsRecord = record {
    not_eof = false_by_not _ (each (λ w g. not (simple_code w g == rel_eof)) refl refl);
    not_rel = false_by_not _ (each (λ w g. not (simple_code w g == rel_rel)) refl refl);
    not_org = false_by_not _ (each (λ w g. not (simple_code w g == rel_org)) refl refl);
    not_pcr = false_by_not _ (each (λ w g. not (simple_code w g == rel_pcr)) refl refl);
    not_overflow = false_by_not _ (each (λ w g. not (simple_code w g == rel_overflow)) refl refl);
    not_high = false_by_not _ (each (λ w g. not (simple_code w g == rel_high)) refl refl);
  }

  code_is_simple : (bit_and (simple_code wide seg) rel_simple == 0) ≡ false
  unfolding all_below
  code_is_simple =
      false_by_not _ (each (λ w g. not (bit_and (simple_code w g) rel_simple == 0)) refl refl)

  code_segment : bit_and (simple_code wide seg) 0x0f ≡ seg
  unfolding all_below
  code_segment =
      let h = each (λ w g. bit_and (simple_code w g) 0x0f == g) refl refl in ground (arith, h)

  code_size : reloc_size (simple_code wide seg) ≡ (if wide then 2 else 1)
  unfolding all_below
  code_size =
      let h = each (λ w g. reloc_size (simple_code w g) == (if w then 2 else 1)) refl refl in
      ground (arith, h)

symbol_code-IsRecord : (wide : Bool) → IsRecord (u8 (bit_or (if wide then 0x10 else 0) rel_symbol))
symbol_code-IsRecord true = record {
  not_eof = refl;
  not_rel = refl;
  not_org = refl;
  not_pcr = refl;
  not_overflow = refl;
  not_high = refl;
}
symbol_code-IsRecord false = record {
  not_eof = refl;
  not_rel = refl;
  not_org = refl;
  not_pcr = refl;
  not_overflow = refl;
  not_high = refl;
}

of_symbol :
    (wide : Bool)
    → let code = u8 (bit_or (if wide then 0x10 else 0) rel_symbol) in
      ((bit_and code rel_simple == 0) ≡ true)
      × (bit_and code 0x0f ≡ rel_symbol)
      × (reloc_size code ≡ (if wide then 2 else 1))
of_symbol true = (refl, refl, refl)
of_symbol false = (refl, refl, refl)

module _ (o : Context) where
  -- A place that the linker can relocate to: a segment there is, or a symbol of the object that is known.
  abbrev pub IsLocated : Option ℕ → ℕ → Type 0
  IsLocated none seg = (seg ≢ absolute) × (seg < oseg)
  IsLocated (some number) seg =
      (entry : Symbol) × (number < 2 ^ 16)
      × (get_elem? o.syment number ≡ some entry)
      × ((bit_and entry.type s_unknown == 0) ≡ true)

  -- What the linker adds to a value.
  abbrev pub delta : Option ℕ → ℕ → ℕ
  delta none seg = if seg == absolute then 0 else o.base seg
  delta (some number) seg = elim (get_elem? o.syment number) [ none ↦ 0 | some entry ↦ entry.value ]

  module _ (raw : o.rawstream ≡ true) (segment : ℕ) (unchecked high wide : Bool) where
    pub located-Takes :
        (place : Option ℕ) (seg v : ℕ)
        → IsLocated place seg
        → ((not unchecked && not high)
            && exceeds
                (if wide then 2 else 1)
                (delta place seg)
                (u16 (sized (if wide then 2 else 1) v + delta place seg)))
          ≡ false
        → Takes
            (rel_esc
              ∷ ((if unchecked then rel_overflow ∷ [] else [])
                  ++ ((if high then rel_high ∷ [] else [])
                      ++ (kind_bytes place (if wide then 0x10 else 0) seg
                          ++ sized_bytes o (if wide then 2 else 1) v))))
            (sized_bytes o
              (cut_size o high (if wide then 2 else 1))
              (cut o high (u16 (sized (if wide then 2 else 1) v + delta place seg))))
            (cut_size o high (if wide then 2 else 1))
            (io_readb rel_esc >>= λ c. relocate_byte o segment c)
            go_on
    located-Takes none seg v (not_absolute, small) fits =
        let here : (seg == absolute) ≡ false = ground (arith, not_absolute) in
        let fits' = rw here at fits in
        let in_range : (seg == absolute || leb oseg seg || ltb 2 (if wide then 2 else 1)) ≡ false =
          ground (arith, not_absolute, small) in
        rw here (
          record-Takes o raw segment unchecked high _ _ _ _ (simple-IsRecord wide seg small) (
            relocate_simple-Takes o raw (not unchecked && not high) high _ _ seg v
              (code_is_simple wide seg small) (code_segment wide seg small)
              (code_size wide seg small) in_range fits'))
    located-Takes (some number) seg v (entry, small, found, known) fits =
        let fits' = rw (found, delta) at fits in
        rw (found, delta)
          (record-Takes o raw segment unchecked high _ _ _ _ (symbol_code-IsRecord wide) (
            relocate_symbol-Takes o raw (not unchecked && not high) high _ _ v entry known fits'
              number (of_symbol wide).0 (of_symbol wide).1 (of_symbol wide).2 small found))
