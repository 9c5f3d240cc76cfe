-- ===== src/Linker/Unknown.antt =====
-- The record of a symbol that is not known, in a link whose output is relocated again (the option r). Code:
-- cmds/bintools/ld.c (relocate_stream).
use fuzemsys.Base.{
  ℕ, ◌/◌, ◌^◌, ◌<◌, bit_and, ◌≡◌, refl, Bool, true, false, ◌&&◌, not, some, List, [], ◌∷◌, ◌++◌,
  ◌==◌, if◌then◌else◌, get_elem?,
}
use fuzemsys.Base.Bits.{u8}
use fuzemsys.ObjectFile.{rel_esc, rel_rel, rel_overflow, rel_high, s_unknown}
use fuzemsys.Linker.{
  Context, Symbol, Linker, ld_rflag, done, ◌>>◌, when, fputc, target_put, target_pquoteb,
}
use fuzemsys.Linker.Relocate.{Modifiers, relocate_unknown, put_symbol, relocate_symbol, reloc_size}
use fuzemsys.Linker.Takes.{
  puts, Takes, bind-Takes, then-Takes, take_bind, put_then, put_bind, gets-Takes, pure-Takes,
  if-writes,
}
use fuzemsys.Linker.Moves.{fputc-Takes, io_readb-Takes, io_read16-Takes, advance-Takes}

-- A byte of the program in a stream that is not raw.
abbrev pub quoted : ℕ → List ℕ
quoted b = if u8 b == rel_esc then u8 b ∷ rel_rel ∷ [] else u8 b ∷ []

abbrev pub quoted_word : Bool → ℕ → List ℕ
quoted_word big v = if big then quoted (v / 2 ^ 8) ++ quoted v else quoted v ++ quoted (v / 2 ^ 8)

and_true : (b : Bool) → (b && true) ≡ b
and_true true = refl
and_true false = refl

when_put :
    (test : Bool) (b : ℕ) → Takes [] (if test then u8 b ∷ [] else []) 0 (when test (fputc b)) tt
when_put test b = if-writes test (fputc-Takes b) (pure-Takes tt)

-- The record, with the symbol's new number.
abbrev pub renumbered : Modifiers → Symbol → List ℕ
renumbered m entry =
    rel_esc
    ∷ ((if not m.overflow then rel_overflow ∷ [] else [])
        ++ ((if m.high then rel_high ∷ [] else [])
            ++ (u8 m.code ∷ u8 entry.number ∷ u8 (entry.number / 2 ^ 8) ∷ [])))

module _ (o : Context) (cooked : o.rawstream ≡ false) (again : o.ldmode ≡ ld_rflag) where
  quote-Takes : (v : ℕ) → Takes [] (quoted v) 0 (target_pquoteb o v) tt
  unfolding target_pquoteb
  quote-Takes v =
      rw (cooked, and_true (u8 v == rel_esc))
        (if-writes (u8 v == rel_esc) (put_bind (fputc-Takes v) (fputc-Takes rel_rel))
          (fputc-Takes v))

  word-Takes : (v : ℕ) → Takes [] (quoted_word o.bigendian v) 0 (target_put o v 2) tt
  unfolding target_put
  word-Takes v =
      if-writes o.bigendian (put_bind (quote-Takes (v / 2 ^ 8)) (quote-Takes v))
        (put_bind (quote-Takes v) (quote-Takes (v / 2 ^ 8)))

  module _ (m : Modifiers) (entry : Symbol) where
    renumbered-Takes :
        Takes []
          (renumbered m entry)
          0
          (fputc rel_esc
            >> (when (not m.overflow) (fputc rel_overflow)
                >> (when m.high (fputc rel_high)
                    >> (fputc m.code >> (fputc entry.number >> fputc (entry.number / 2 ^ 8))))))
          tt
    renumbered-Takes = put_bind (fputc-Takes rel_esc) (
        put_bind (when_put (not m.overflow) rel_overflow) (
          put_bind (when_put m.high rel_high) (
            put_bind (fputc-Takes m.code)
              (put_bind (fputc-Takes entry.number) (fputc-Takes (entry.number / 2 ^ 8))))))

    unknown-Takes :
        (b c : ℕ)
        → Takes
            (b ∷ c ∷ [])
            (renumbered m entry ++ (u8 b ∷ u8 c ∷ []))
            0
            (relocate_unknown o m 2 false entry)
            tt
    unfolding relocate_unknown
    unknown-Takes b c =
        rw (cooked, again)
          (then-Takes (pure-Takes tt) (
            put_bind renumbered-Takes (
              take_bind _ (io_readb-Takes 0 b)
                (put_bind (fputc-Takes b) (take_bind _ (io_readb-Takes b c) (fputc-Takes c))))))

    put_symbol-Takes :
        (n : ℕ) → Takes [] (quoted_word o.bigendian n) 2 (put_symbol o m n 2 false entry) tt
    unfolding put_symbol target_put target_pquoteb
    put_symbol-Takes n =
        gets-Takes (λ s. s.dot)
          λ d. rw again (then-Takes (pure-Takes tt) (put_then (word-Takes n) (advance-Takes 2)))

    relocate_symbol-Takes :
        (n b c : ℕ)
        → reloc_size m.code ≡ 2
        → n < 2 ^ 16
        → get_elem? o.syment n ≡ some entry
        → (bit_and entry.type s_unknown == 0) ≡ false
        → Takes
            (u8 n ∷ u8 (n / 2 ^ 8) ∷ b ∷ c ∷ [])
            (renumbered m entry ++ (u8 b ∷ u8 c ∷ []) ++ quoted_word o.bigendian n)
            2
            (relocate_symbol o m false)
            tt
    unfolding relocate_symbol
    relocate_symbol-Takes n b c size small found unknown = take_bind _ (io_read16-Takes n small) (
        rw (found, unknown, size)
          (bind-Takes _ (b ∷ c ∷ []) _ 0 [] _ 2 (unknown-Takes b c) (put_symbol-Takes n)))

-- When the output is relocated again (the option r), a word that refers to a symbol that is not known is
-- copied with the symbol's new number, and then the symbol's old number is put as a further word of the
-- program; no error is reported.
pub renumbered_and_more :
    (o : Context) (m : Modifiers) (entry : Symbol) (n b c : ℕ) (rest : List ℕ) (s : Linker)
    → o.rawstream ≡ false
    → o.ldmode ≡ ld_rflag
    → reloc_size m.code ≡ 2
    → n < 2 ^ 16
    → get_elem? o.syment n ≡ some entry
    → (bit_and entry.type s_unknown == 0) ≡ false
    → s.input ≡ u8 n ∷ u8 (n / 2 ^ 8) ∷ b ∷ c ∷ rest
    → (s' : Linker) × (relocate_symbol o m false s ≡ done tt s')
      × (s'.input ≡ rest)
      × (s'.op ≡ puts (renumbered m entry ++ (u8 b ∷ u8 c ∷ []) ++ quoted_word o.bigendian n) s.op)
      × (s'.err ≡ s.err)
renumbered_and_more o m entry n b c rest s cooked again size small found unknown e =
    let (s', run, moved) =
      (relocate_symbol-Takes o cooked again m entry n b c size small found unknown).runs rest s e in
    (s', run, moved.left, moved.wrote, moved.quiet)
