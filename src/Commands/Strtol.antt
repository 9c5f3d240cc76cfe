-- ===== src/Commands/Strtol.antt =====
-- strtol of the C library, for the bases 10 and 16, as an int: a long has 64 bits, and an int is its
-- remainder modulo 2 ^ 32. Used by emulators/emumon.c (parse_addr).
use fuzemsys.Base.{
  ℕ, ◌+◌, ◌-◌, ◌*◌, ◌%◌, ◌^◌, min, Bool, true, false, ◌&&◌, ◌||◌, List, [], ◌∷◌, ltb, leb, ◌==◌,
  if◌then◌else◌,
}

-- The value of a digit, and 36 for a byte that is none.
abbrev pub digit_value : ℕ → ℕ
digit_value c =
    if leb 0x30 c && leb c 0x39
    then c - 0x30
    else if leb b'A' c && leb c b'Z'
    then c - 55
    else if leb b'a' c && leb c b'z'
    then c - 87
    else 36

-- The value of the digits of a base that the bytes begin with, behind those already read.
abbrev pub digits : ℕ → ℕ → List ℕ → ℕ
digits base so_far [] = so_far
digits base so_far (c ∷ str) = elim (ltb (digit_value c) base) [
  | true ↦ digits base (so_far * base + digit_value c) str
  | false ↦ so_far
]

-- 0x before a digit.
abbrev pub skip_prefix : ℕ → List ℕ → List ℕ
skip_prefix base (c ∷ x ∷ d ∷ str) =
    if base == 16 && c == 0x30 && (x == b'x' || x == b'X') && ltb (digit_value d) 16
    then d ∷ str
    else c ∷ x ∷ d ∷ str
skip_prefix base str = str

abbrev pub isspace : ℕ → Bool
isspace c = c == 0x20 || leb 9 c && leb c 13

abbrev pub skip_space : List ℕ → List ℕ
skip_space [] = []
skip_space (c ∷ str) = elim (isspace c) [ true ↦ skip_space str | false ↦ c ∷ str ]

abbrev pub magnitude : ℕ → List ℕ → ℕ
magnitude base str = digits base 0 (skip_prefix base str)

abbrev pub signed : ℕ → List ℕ → ℕ
signed base [] = 0
signed base (c ∷ str) =
    if c == b'-'
    then (2 ^ 64 - min (magnitude base str) (2 ^ 63)) % 2 ^ 32
    else if c == b'+'
    then min (magnitude base str) (2 ^ 63 - 1) % 2 ^ 32
    else min (magnitude base (c ∷ str)) (2 ^ 63 - 1) % 2 ^ 32

abbrev pub strtol : ℕ → List ℕ → ℕ
strtol base str = signed base (skip_space str)
