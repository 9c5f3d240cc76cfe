-- ===== src/Linker/Moves.antt =====
-- What the linker's operations take from the object file and put in the output. Code: cmds/bintools/ld.c
-- (io_readb to target_get, record_reloc).
use fuzemsys.Base.{
  ℕ, ◌+◌, ◌*◌, ◌/◌, ◌^◌, ◌<◌, bit_or, ◌≡◌, refl, ◌∙◌, Bool, true, false, ◌&&◌, not, List, [], ◌∷◌,
  ◌==◌, if◌then◌else◌, arith,
}
use fuzemsys.Base.Bits.{u8, u16, bit_or_low}
use mathlib.Core.Path.{subst}
use fuzemsys.ObjectFile.{zp, rel_esc}
use fuzemsys.Linker.{
  Context, Link, Void, ◌>>=◌, ◌>>◌, pure, io_readb, io_read16, fputc, advance, fputc_reloc,
  target_pgetb, target_pquoteb, target_put, target_get,
}
use fuzemsys.Linker.Relocate.{record_reloc}
use fuzemsys.Linker.Takes.{
  and_false, Takes, bind-Takes, pure-Takes, if-writes, either-Takes, if-reads,
}

pub fputc-Takes : (b : ℕ) → Takes [] (u8 b ∷ []) 0 (fputc b) tt
unfolding fputc
fputc-Takes b = record {
  runs = λ rest s e.
      (_, refl, record { left = e; wrote = refl; position = omega arith; quiet = refl });
}

pub advance-Takes : (n : ℕ) → Takes [] [] n (advance n) tt
unfolding advance
advance-Takes n = record {
  runs = λ rest s e.
      (_, refl, record { left = e; wrote = refl; position = omega arith; quiet = refl });
}

pub io_readb-Takes : (old b : ℕ) → Takes (b ∷ []) [] 0 (io_readb old) b
unfolding io_readb
io_readb-Takes old b = record {
  runs = λ rest s e. (
    record s { input = rest },
    rw e refl,
    record { left = refl; wrote = refl; position = omega arith; quiet = refl },
  );
}

target_pgetb-Takes : (b : ℕ) → Takes (b ∷ []) [] 0 target_pgetb b
unfolding target_pgetb
target_pgetb-Takes b = record {
  runs = λ rest s e. (
    record s { input = rest },
    rw e refl,
    record { left = refl; wrote = refl; position = omega arith; quiet = refl },
  );
}

two_bytes : (lo hi : ℕ) → Takes (lo ∷ hi ∷ []) [] 0 io_read16 (bit_or (hi * 2 ^ 8) lo)
unfolding io_read16
two_bytes lo hi =
    bind-Takes _ (lo ∷ []) [] 0 (hi ∷ []) [] 0 (io_readb-Takes 0 lo)
      (bind-Takes _ (hi ∷ []) [] 0 [] [] 0 (io_readb-Takes 0 hi) (pure-Takes _))

pub io_read16-Takes : (v : ℕ) → v < 2 ^ 16 → Takes (u8 v ∷ u8 (v / 2 ^ 8) ∷ []) [] 0 io_read16 v
io_read16-Takes v v-lt =
    subst (λ (r : ℕ). Takes (u8 v ∷ u8 (v / 2 ^ 8) ∷ []) [] 0 io_read16 r)
      (bit_or_low 8 (u8 (v / 2 ^ 8)) (u8 v) (omega arith) ∙ omega (arith, v-lt))
      (two_bytes (u8 v) (u8 (v / 2 ^ 8)))

fputc_reloc-Takes : (b : ℕ) → Takes [] [] 0 (fputc_reloc b) tt
unfolding fputc_reloc
fputc_reloc-Takes b = record {
  runs = λ rest s e.
      (_, refl, record { left = e; wrote = refl; position = omega arith; quiet = refl });
}

then_reloc : (b : ℕ) {m : Link Void} → Takes [] [] 0 m tt → Takes [] [] 0 (fputc_reloc b >> m) tt
then_reloc b h = bind-Takes _ [] [] 0 [] [] 0 (fputc_reloc-Takes b) h

-- What is read of a value.
abbrev pub sized : ℕ → ℕ → ℕ
sized size v = if size == 1 then u8 v else u16 v

read_word :
    (big : Bool) (l h : ℕ)
    → Takes
        (if big then h ∷ l ∷ [] else l ∷ h ∷ [])
        []
        0
        (target_pgetb >>= λ first. target_pgetb >>= λ second.
          pure (if big then first * 2 ^ 8 + second else first + second * 2 ^ 8))
        (if big then h * 2 ^ 8 + l else l + h * 2 ^ 8)
read_word true l h =
    bind-Takes _ (h ∷ []) [] 0 (l ∷ []) [] 0 (target_pgetb-Takes h)
      (bind-Takes _ (l ∷ []) [] 0 [] [] 0 (target_pgetb-Takes l) (pure-Takes _))
read_word false l h =
    bind-Takes _ (l ∷ []) [] 0 (h ∷ []) [] 0 (target_pgetb-Takes l)
      (bind-Takes _ (h ∷ []) [] 0 [] [] 0 (target_pgetb-Takes h) (pure-Takes _))

module _ (o : Context) where
  pub record_reloc-Takes :
      (high : Bool) (size seg addr : ℕ) → Takes [] [] 0 (record_reloc o high size seg addr) tt
  unfolding record_reloc
  record_reloc-Takes high size seg addr =
      either-Takes (seg == zp) (then_reloc 0 (then_reloc 0 (fputc_reloc-Takes _))) (
        either-Takes (size == 1 && not high) (pure-Takes tt)
          (then_reloc 1 (then_reloc _ (fputc_reloc-Takes _))))

  -- A word's two bytes, in the object's order.
  abbrev pub word_bytes : ℕ → List ℕ
  word_bytes v = if o.bigendian then u8 (v / 2 ^ 8) ∷ u8 v ∷ [] else u8 v ∷ u8 (v / 2 ^ 8) ∷ []

  abbrev pub sized_bytes : ℕ → ℕ → List ℕ
  sized_bytes size v = if size == 1 then u8 v ∷ [] else word_bytes v

  -- The value that the two reads give.
  read_bytes :
      (size v : ℕ)
      → Takes (sized_bytes size v) [] 0 (target_get o size) (
          if size == 1
          then u8 v
          else if o.bigendian
          then u8 (v / 2 ^ 8) * 2 ^ 8 + u8 v
          else u8 v + u8 (v / 2 ^ 8) * 2 ^ 8)
  unfolding target_get
  read_bytes size v =
      if-reads (size == 1) (target_pgetb-Takes (u8 v))
        (read_word o.bigendian (u8 v) (u8 (v / 2 ^ 8)))

  pub target_get-Takes :
      (size v : ℕ) → Takes (sized_bytes size v) [] 0 (target_get o size) (sized size v)
  target_get-Takes size v =
      subst (λ (r : ℕ). Takes (sized_bytes size v) [] 0 (target_get o size) r) the_value
        (read_bytes size v)
    where
      the_value :
          (if size == 1
            then u8 v
            else if o.bigendian
            then u8 (v / 2 ^ 8) * 2 ^ 8 + u8 v
            else u8 v + u8 (v / 2 ^ 8) * 2 ^ 8)
          ≡ sized size v
      the_value = ground arith

  module _ (raw : o.rawstream ≡ true) where
    pub target_pquoteb-Takes : (v : ℕ) → Takes [] (u8 v ∷ []) 0 (target_pquoteb o v) tt
    unfolding target_pquoteb
    target_pquoteb-Takes v = rw (raw, and_false (u8 v == rel_esc)) (fputc-Takes v)

    pub target_put-Takes : (size v : ℕ) → Takes [] (sized_bytes size v) 0 (target_put o v size) tt
    unfolding target_put
    target_put-Takes size v = if-writes (size == 1) (target_pquoteb-Takes v) (
        if-writes o.bigendian
          (bind-Takes _ [] (_ ∷ []) 0 [] (_ ∷ []) 0 (target_pquoteb-Takes (v / 2 ^ 8))
            (target_pquoteb-Takes v))
          (bind-Takes _ [] (_ ∷ []) 0 [] (_ ∷ []) 0 (target_pquoteb-Takes v)
            (target_pquoteb-Takes (v / 2 ^ 8))))
