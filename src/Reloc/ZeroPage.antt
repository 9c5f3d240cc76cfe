-- ===== src/Reloc/ZeroPage.antt =====
-- The block of the zero page relocations. Code: cmds/bintools/reloc.c (main).
use fuzemsys.Base.{
  ℕ, zero, suc, ◌+◌, ◌-◌, ◌*◌, ◌^◌, ◌<◌, ◌≡◌, refl, sym, ap, ◌∙◌, true, false, List, [], ◌∷◌, ltb,
  ◌==◌, Bool-cases, inl, inr, arith, rev_onto,
}
use mathlib.Core.Path.{subst}
use fuzemsys.Base.Bits.{u8}
use fuzemsys.Reloc.{Writer, done, put_counted, skip_zp, zp_block}

-- The addresses of the records up to the first that is not of the zero page.
abbrev pub zp_addresses : List ℕ → List ℕ
zp_addresses (kind ∷ hi ∷ lo ∷ rest) = elim (kind == 0) [
  | true ↦ (hi * 2 ^ 8 + lo) ∷ zp_addresses rest
  | false ↦ []
]
zp_addresses _ = []

abbrev pub AllInPage : List ℕ → Type 0
AllInPage [] = Unit
AllInPage (a ∷ rest) = (a < 256) × AllInPage rest

-- From 0 no round of the loop runs.
skip_zp_none : (fuel addr : ℕ) (w : Writer) → skip_zp fuel addr 0 w ≡ (0, w)
unfolding skip_zp
skip_zp_none zero addr w = refl
skip_zp_none (suc fuel) addr w =
    let ends : ltb (addr + 254) 0 ≡ false = ground arith in rw ends refl

zp_addresses_more :
    (kind hi lo : ℕ) (rest : List ℕ)
    → (kind == 0) ≡ true
    → zp_addresses (kind ∷ hi ∷ lo ∷ rest) ≡ (hi * 2 ^ 8 + lo) ∷ zp_addresses rest
zp_addresses_more kind hi lo rest e =
    λ i. elim (e i) [ true ↦ (hi * 2 ^ 8 + lo) ∷ zp_addresses rest | false ↦ [] ]

zp_addresses_end :
    (kind hi lo : ℕ) (rest : List ℕ)
    → (kind == 0) ≡ false
    → zp_addresses (kind ∷ hi ∷ lo ∷ rest) ≡ []
zp_addresses_end kind hi lo rest e =
    λ i. elim (e i) [ true ↦ (hi * 2 ^ 8 + lo) ∷ zp_addresses rest | false ↦ [] ]

-- From 0, when the addresses of the records up to the first that is not of the zero page are below 256,
-- sorted or not, the block ends without an error, and writes each address itself, not its distance from the one before.
pub zp_block-absolute :
    (relocs : List ℕ) (w : Writer)
    → AllInPage (zp_addresses relocs)
    → (w' : Writer) × (zp_block relocs 0 w ≡ done w')
      × (w'.out ≡ rev_onto (zp_addresses relocs) w.out)
unfolding zp_block
zp_block-absolute [] w h = (w, refl, refl)
zp_block-absolute (kind ∷ []) w h = (w, refl, refl)
zp_block-absolute (kind ∷ hi ∷ []) w h = (w, refl, refl)
zp_block-absolute (kind ∷ hi ∷ lo ∷ rest) w h = elim (Bool-cases (kind == 0)) [
  | inl e ↦
      let addr = hi * 2 ^ 8 + lo in
      let same = zp_addresses_more kind hi lo rest e in
      let (page, later) = subst AllInPage same h in
      let none = skip_zp_none (2 ^ 16) addr w in
      let sorted : ltb addr 0 ≡ false = ground arith in
      let low : u8 (addr + 2 ^ 16 - 0) ≡ addr = omega (arith, page) in
      let (w', runs, writes) = zp_block-absolute rest (put_counted (addr + 2 ^ 16 - 0) w) later in
      (
        w',
        rw (e, sorted, none) runs,
        writes
            ∙ ap (λ (b : ℕ). rev_onto (zp_addresses rest) (b ∷ w.out)) low
            ∙ ap (λ (l : List ℕ). rev_onto l w.out) (sym same),
      )
  | inr e ↦ (
    w,
    rw e refl,
    ap (λ (l : List ℕ). rev_onto l w.out) (sym (zp_addresses_end kind hi lo rest e)),
  )
]
