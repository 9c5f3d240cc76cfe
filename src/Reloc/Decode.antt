-- ===== src/Reloc/Decode.antt =====
-- The relocations that are written, read back. Code: cmds/bintools/reloc.c (main).
use fuzemsys.Base.{
  length-append, rev_onto, rev_onto-rev_onto, ℕ, zero, suc, ◌+◌, ◌-◌, ◌*◌, ◌^◌, ◌<◌, ◌≤◌, ◌≡◌, refl,
  sym, ap, ◌∙◌, true, false, List, [], ◌∷◌, ◌++◌, length, ltb, leb, ◌==◌, Bool-cases, inl, inr,
  arith,
}
use mathlib.Core.Path.{subst}
use fuzemsys.Base.Bits.{u8, u16}
use fuzemsys.Reloc.{
  Exec, Writer, done, missorted, put_counted, skip, block, relocate_binary, fix_header,
}
use fuzemsys.Reloc.Format.{
  decode, addresses, IsAscending, gap_bytes, deltas, gap_bytes_far, gap_bytes_near, decode-deltas,
  AllBytes, deltas-AllBytes,
}

-- The bytes, put one after the other.
abbrev counted : List ℕ → Writer → Writer
counted [] w = w
counted (b ∷ bytes) w = counted bytes (put_counted b w)

counted-append : (xs ys : List ℕ) (w : Writer) → counted (xs ++ ys) w ≡ counted ys (counted xs w)
counted-append [] ys w = refl
counted-append (b ∷ xs) ys w = counted-append xs ys (put_counted b w)

-- The gap of one relocation, as the code writes it.
skip-gap_bytes :
    (fuel addr laddr : ℕ) (w : Writer)
    → laddr < addr
    → addr < 2 ^ 16
    → addr - laddr ≤ 254 + fuel * 254
    → put_counted (addr - (skip fuel addr laddr w).0) (skip fuel addr laddr w).1
      ≡ counted (gap_bytes fuel (addr - laddr)) w
unfolding skip
skip-gap_bytes zero addr laddr w low word fits = refl
skip-gap_bytes (suc fuel) addr laddr w low word fits = elim (Bool-cases (ltb 254 (addr - laddr))) [
  | inl e ↦
      let far : 254 < addr - laddr = ground (arith, e) in
      let same : u16 (laddr + 254) ≡ laddr + 254 = omega (arith, far, word) in
      let gap : addr - (laddr + 254) ≡ addr - laddr - 254 = omega (arith, far) in
      rw (e, same)
        (skip-gap_bytes fuel addr (laddr + 254) (put_counted 0xff w) (omega (arith, far)) word
            (omega (arith, far, fits))
          ∙ ap (λ (g : ℕ). counted (gap_bytes fuel g) (put_counted 0xff w)) gap
          ∙ ap (λ (l : List ℕ). counted l w) (sym (gap_bytes_far fuel (addr - laddr) e)))
  | inr e ↦ rw e (ap (λ (l : List ℕ). counted l w) (sym (gap_bytes_near fuel (addr - laddr) e)))
]

addresses_zp :
    (kind hi lo : ℕ) (rest : List ℕ)
    → (kind == 0) ≡ true
    → addresses (kind ∷ hi ∷ lo ∷ rest) ≡ addresses rest
addresses_zp kind hi lo rest e =
    λ i. elim (e i) [ true ↦ addresses rest | false ↦ (hi * 2 ^ 8 + lo) ∷ addresses rest ]

addresses_other :
    (kind hi lo : ℕ) (rest : List ℕ)
    → (kind == 0) ≡ false
    → addresses (kind ∷ hi ∷ lo ∷ rest) ≡ (hi * 2 ^ 8 + lo) ∷ addresses rest
addresses_other kind hi lo rest e =
    λ i. elim (e i) [ true ↦ addresses rest | false ↦ (hi * 2 ^ 8 + lo) ∷ addresses rest ]

block_zp :
    (kind hi lo : ℕ) (rest : List ℕ) (laddr : ℕ) (w : Writer)
    → (kind == 0) ≡ true
    → block (kind ∷ hi ∷ lo ∷ rest) laddr w ≡ block rest laddr w
unfolding block
block_zp kind hi lo rest laddr w e =
    let addr = hi * 2 ^ 8 + lo in
    let skipped = skip addr addr laddr w in
    λ i. elim (e i) [
      | true ↦ block rest laddr w
      | false ↦ elim (ltb addr laddr) [
        | true ↦ missorted w
        | false ↦ block rest addr (put_counted (addr - skipped.0) skipped.1)
      ]
    ]

block_other :
    (kind hi lo : ℕ) (rest : List ℕ) (laddr : ℕ) (w : Writer)
    → (kind == 0) ≡ false
    → laddr ≤ hi * 2 ^ 8 + lo
    → (let addr = hi * 2 ^ 8 + lo in
        let skipped = skip addr addr laddr w in
        block (kind ∷ hi ∷ lo ∷ rest) laddr w
        ≡ block rest addr (put_counted (addr - skipped.0) skipped.1))
unfolding block
block_other kind hi lo rest laddr w e sorted =
    let in_order : ltb (hi * 2 ^ 8 + lo) laddr ≡ false = ground (arith, sorted) in
    let addr = hi * 2 ^ 8 + lo in
    let skipped = skip addr addr laddr w in
    λ i. elim (e i) [
      | true ↦ block rest laddr w
      | false ↦ elim (in_order i) [
        | true ↦ missorted w
        | false ↦ block rest addr (put_counted (addr - skipped.0) skipped.1)
      ]
    ]

block-deltas :
    (file : List ℕ) (laddr : ℕ) (w : Writer)
    → IsAscending laddr (addresses file)
    → block file laddr w ≡ done (counted (deltas laddr (addresses file)) w)
unfolding block
block-deltas [] laddr w h = refl
block-deltas (kind ∷ []) laddr w h = refl
block-deltas (kind ∷ hi ∷ []) laddr w h = refl
block-deltas (kind ∷ hi ∷ lo ∷ rest) laddr w h = elim (Bool-cases (kind == 0)) [
  | inl e ↦
      let same = addresses_zp kind hi lo rest e in
      block_zp kind hi lo rest laddr w e
      ∙ block-deltas rest laddr w (subst (IsAscending laddr) same h)
      ∙ ap (λ (l : List ℕ). done (counted (deltas laddr l) w)) (sym same)
  | inr e ↦
      let addr = hi * 2 ^ 8 + lo in
      let same = addresses_other kind hi lo rest e in
      let (low, word, later) = subst (IsAscending laddr) same h in
      block_other kind hi lo rest laddr w e (omega (arith, low))
      ∙ block-deltas rest addr _ later
      ∙ ap (λ (x : Writer). done (counted (deltas addr (addresses rest)) x))
          (skip-gap_bytes addr addr laddr w low word (omega arith))
      ∙ ap done
          (sym (counted-append (gap_bytes addr (addr - laddr)) (deltas addr (addresses rest)) w))
      ∙ ap (λ (l : List ℕ). done (counted (deltas laddr l) w)) (sym same)
]

out-counted :
    (bytes : List ℕ) (w : Writer) → AllBytes bytes → (counted bytes w).out ≡ rev_onto bytes w.out
out-counted [] w h = refl
out-counted (b ∷ bytes) w h =
    let same : u8 b ≡ b = omega (arith, h.0) in
    out-counted bytes (put_counted b w) h.1 ∙ ap (λ (x : ℕ). rev_onto bytes (x ∷ w.out)) same

raddr-counted :
    (bytes : List ℕ) (w : Writer) → u16 (counted bytes w).raddr ≡ u16 (w.raddr + length bytes)
raddr-counted [] w = omega arith
raddr-counted (b ∷ bytes) w = let h = raddr-counted bytes (put_counted b w) in omega (arith, h)

-- With the end mark, raddr is behind the bytes.
raddr-end :
    (w : Writer) (bytes : List ℕ)
    → u16 ((counted bytes w).raddr + 1) ≡ u16 (w.raddr + length (bytes ++ (0 ∷ [])))
raddr-end w bytes =
    let counts = raddr-counted bytes w in
    let more = length-append bytes (0 ∷ []) in omega (arith, counts, more)

-- The header of a binary that has grown by a number of bytes.
abbrev pub grown : Exec → ℕ → Exec
grown hdr n = record hdr { a_bss = hdr.a_bss - n; a_data = u16 (hdr.a_data + n) }

fix_header-grown :
    (hdr : Exec) (n : ℕ)
    → fix_header hdr (u16 (u16 (hdr.a_text + hdr.a_data) + n)) ≡ grown hdr (u16 n)
unfolding fix_header
fix_header-grown hdr n =
    let size : u16
          (u16 (u16 (hdr.a_text + hdr.a_data) + n) + 2 ^ 16 - u16 (hdr.a_text + hdr.a_data))
        ≡ u16 n =
      omega arith in
    elim (Bool-cases (leb (u16 n) hdr.a_bss)) [
      | inl e ↦ rw (size, e) refl
      | inr e ↦
          let over : hdr.a_bss < u16 n = ground (arith, e) in
          let none_left : 0 ≡ hdr.a_bss - u16 n = omega (arith, over) in
          rw (size, e)
            (ap (λ (b : ℕ). record hdr { a_bss = b; a_data = u16 (hdr.a_data + u16 n) }) none_left)
    ]

-- In a binary that declares no zero page, when the addresses of the relocations that are not of the zero page
-- are above 0, ascend and have 16 bits, main does not exit early; the bytes it puts behind the data, read
-- with the format up to the end mark, give those addresses; and of the header's fields only the sizes of the data
-- and of the BSS change: their number, modulo 2 ^ 16, is added to the data, and is taken from the BSS, which becomes 0 when it is
-- smaller.
pub decode-relocate_binary :
    (hdr : Exec) (relocs : List ℕ)
    → hdr.a_zp ≡ 0
    → IsAscending 0 (addresses relocs)
    → (hdr' : Exec) × (w : Writer) × (relocate_binary hdr relocs ≡ done (hdr', w))
      × (decode 0 (rev_onto w.out []) ≡ addresses relocs)
      × (hdr' ≡ grown hdr (u16 (length (rev_onto w.out []))))
unfolding relocate_binary
decode-relocate_binary hdr relocs no_zp sorted =
    let start : Writer = record { out = []; raddr = u16 (hdr.a_text + hdr.a_data) } in
    let bytes = deltas 0 (addresses relocs) in
    let end = put_counted 0 (counted bytes start) in
    let is_0 : (hdr.a_zp == 0) ≡ true = ground (arith, no_zp) in
    let written : rev_onto end.out [] ≡ bytes ++ (0 ∷ []) =
      ap (λ (l : List ℕ). rev_onto (0 ∷ l) [])
        (out-counted bytes start (deltas-AllBytes 0 (addresses relocs)))
      ∙ rev_onto-rev_onto bytes [] (0 ∷ []) in
    let counts = raddr-counted bytes start in
    (
      fix_header hdr end.raddr,
      end,
      rw (is_0, block-deltas relocs 0 start sorted) refl,
      ap (λ (l : List ℕ). decode 0 l) written ∙ decode-deltas 0 (addresses relocs) sorted,
      ap (fix_header hdr) (raddr-end start bytes)
          ∙ fix_header-grown hdr (length (bytes ++ (0 ∷ [])))
          ∙ ap (λ (l : List ℕ). grown hdr (u16 (length l))) (sym written),
    )
