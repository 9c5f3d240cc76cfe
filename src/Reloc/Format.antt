-- ===== src/Reloc/Format.antt =====
-- The format of the relocations behind a binary's data, and the bytes of ascending addresses in it.
-- Code: cmds/bintools/reloc.c (main).
use fuzemsys.Base.{
  ℕ, zero, suc, ◌+◌, ◌-◌, ◌*◌, ◌^◌, ◌<◌, ◌≤◌, ◌≡◌, refl, sym, ap, ◌∙◌, true, false, List, [], ◌∷◌,
  ◌++◌, ltb, ◌==◌, Bool-cases, inl, inr, arith,
}
use mathlib.Core.List.{append_assoc}
use mathlib.Core.Path.{subst}

-- The format: 0 is the end, 0xff moves on by 254, and any other byte moves on by its value to the next
-- relocation.
abbrev pub decode : ℕ → List ℕ → List ℕ
decode laddr [] = []
decode laddr (b ∷ bytes) = elim (b == 0) [
  | true ↦ []
  | false ↦ elim (b == 0xff) [
    | true ↦ decode (laddr + 254) bytes
    | false ↦ (laddr + b) ∷ decode (laddr + b) bytes
  ]
]

-- The addresses of the file's records that are not of the zero page.
abbrev pub addresses : List ℕ → List ℕ
addresses (kind ∷ hi ∷ lo ∷ rest) = elim (kind == 0) [
  | true ↦ addresses rest
  | false ↦ (hi * 2 ^ 8 + lo) ∷ addresses rest
]
addresses _ = []

-- Sorted, with no address twice and none at or below the first argument.
abbrev pub IsAscending : ℕ → List ℕ → Type 0
IsAscending low [] = Unit
IsAscending low (a ∷ rest) = (low < a) × (a < 2 ^ 16) × IsAscending a rest

-- The bytes of one gap.
abbrev pub gap_bytes : ℕ → ℕ → List ℕ
gap_bytes zero gap = gap ∷ []
gap_bytes (suc fuel) gap = elim (ltb 254 gap) [
  | true ↦ 0xff ∷ gap_bytes fuel (gap - 254)
  | false ↦ gap ∷ []
]

abbrev pub deltas : ℕ → List ℕ → List ℕ
deltas laddr [] = []
deltas laddr (a ∷ rest) = gap_bytes a (a - laddr) ++ deltas a rest

decode_next :
    (laddr b : ℕ) (bytes : List ℕ)
    → 0 < b
    → b < 0xff
    → decode laddr (b ∷ bytes) ≡ (laddr + b) ∷ decode (laddr + b) bytes
decode_next laddr b bytes positive small =
    let not_end : (b == 0) ≡ false = ground (arith, positive) in
    let not_skip : (b == 0xff) ≡ false = ground (arith, small) in
    λ i. elim (not_end i) [
      | true ↦ []
      | false ↦ elim (not_skip i) [
        | true ↦ decode (laddr + 254) bytes
        | false ↦ (laddr + b) ∷ decode (laddr + b) bytes
      ]
    ]

pub gap_bytes_far :
    (fuel gap : ℕ)
    → ltb 254 gap ≡ true
    → gap_bytes (suc fuel) gap ≡ 0xff ∷ gap_bytes fuel (gap - 254)
gap_bytes_far fuel gap e =
    λ i. elim (e i) [ true ↦ 0xff ∷ gap_bytes fuel (gap - 254) | false ↦ gap ∷ [] ]

pub gap_bytes_near : (fuel gap : ℕ) → ltb 254 gap ≡ false → gap_bytes (suc fuel) gap ≡ gap ∷ []
gap_bytes_near fuel gap e =
    λ i. elim (e i) [ true ↦ 0xff ∷ gap_bytes fuel (gap - 254) | false ↦ gap ∷ [] ]

decode-gap_bytes :
    (fuel laddr gap : ℕ) (rest : List ℕ)
    → 0 < gap
    → gap ≤ 254 + fuel * 254
    → decode laddr (gap_bytes fuel gap ++ rest) ≡ (laddr + gap) ∷ decode (laddr + gap) rest
decode-gap_bytes zero laddr gap rest positive fits =
    decode_next laddr gap rest positive (omega (arith, fits))
decode-gap_bytes (suc fuel) laddr gap rest positive fits = elim (Bool-cases (ltb 254 gap)) [
  | inl e ↦
      let far : 254 < gap = ground (arith, e) in
      let sum : laddr + 254 + (gap - 254) ≡ laddr + gap = omega (arith, far) in
      ap (λ (l : List ℕ). decode laddr (l ++ rest)) (gap_bytes_far fuel gap e)
      ∙ decode-gap_bytes fuel (laddr + 254) (gap - 254) rest (omega (arith, far))
          (omega (arith, far, fits))
      ∙ ap (λ (a : ℕ). a ∷ decode a rest) sum
  | inr e ↦
      let near : gap ≤ 254 = ground (arith, e) in
      ap (λ (l : List ℕ). decode laddr (l ++ rest)) (gap_bytes_near fuel gap e)
      ∙ decode_next laddr gap rest positive (omega (arith, near))
]

-- With the end mark, the bytes read back.
pub decode-deltas :
    (laddr : ℕ) (l : List ℕ) → IsAscending laddr l → decode laddr (deltas laddr l ++ (0 ∷ [])) ≡ l
decode-deltas laddr [] h = refl
decode-deltas laddr (a ∷ rest) (low, word, later) =
    let sum : laddr + (a - laddr) ≡ a = omega (arith, low) in
    ap (λ (x : List ℕ). decode laddr x)
      (append_assoc (gap_bytes a (a - laddr)) (deltas a rest) (0 ∷ []))
    ∙ decode-gap_bytes a laddr (a - laddr) (deltas a rest ++ (0 ∷ [])) (omega (arith, low))
        (omega (arith, low))
    ∙ (λ i. sum i ∷ decode (sum i) (deltas a rest ++ (0 ∷ [])))
    ∙ ap (λ (x : List ℕ). a ∷ x) (decode-deltas a rest later)

-- Bytes.
abbrev pub AllBytes : List ℕ → Type 0
AllBytes [] = Unit
AllBytes (b ∷ bytes) = (b < 256) × AllBytes bytes

AllBytes-append : (xs ys : List ℕ) → AllBytes xs → AllBytes ys → AllBytes (xs ++ ys)
AllBytes-append [] ys h h' = h'
AllBytes-append (b ∷ xs) ys h h' = (h.0, AllBytes-append xs ys h.1 h')

gap_bytes-AllBytes : (fuel gap : ℕ) → gap ≤ 254 + fuel * 254 → AllBytes (gap_bytes fuel gap)
gap_bytes-AllBytes zero gap fits = (omega (arith, fits), tt)
gap_bytes-AllBytes (suc fuel) gap fits = elim (Bool-cases (ltb 254 gap)) [
  | inl e ↦
      let far : 254 < gap = ground (arith, e) in
      subst AllBytes (sym (gap_bytes_far fuel gap e))
        (omega arith, gap_bytes-AllBytes fuel (gap - 254) (omega (arith, far, fits)))
  | inr e ↦
      let near : gap ≤ 254 = ground (arith, e) in
      subst AllBytes (sym (gap_bytes_near fuel gap e)) (omega (arith, near), tt)
]

pub deltas-AllBytes : (laddr : ℕ) (l : List ℕ) → AllBytes (deltas laddr l)
deltas-AllBytes laddr [] = tt
deltas-AllBytes laddr (a ∷ rest) =
    AllBytes-append (gap_bytes a (a - laddr)) (deltas a rest)
      (gap_bytes-AllBytes a (a - laddr) (omega arith)) (deltas-AllBytes a rest)
