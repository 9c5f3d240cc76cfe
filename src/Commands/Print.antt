-- ===== src/Commands/Print.antt =====
-- A printed address, read back. Code: emulators/emumon.c (parse_addr; the list of breakpoints in monitor).
use fuzemsys.Base.{
  ℕ, zero, suc, ◌+◌, ◌-◌, ◌*◌, ◌/◌, ◌%◌, ◌^◌, min, ◌<◌, ◌≤◌, ◌≡◌, refl, sym, ap, ◌∙◌, Bool, true,
  false, not, ◌&&◌, some, List, [], ◌∷◌, ◌++◌, ltb, leb, ◌==◌, if◌then◌else◌, Bool-cases, inl, inr,
  arith, all_below, all_below_sound,
}
use native.Mathlib.Numerals.{unary_clauses}
use mathlib.Core.List.{append_assoc, append-nil}
use mathlib.Core.Path.{subst}
use fuzemsys.Breakpoints.{no_addr}
use fuzemsys.Symbols.{Name, Symbols, get_sym_address}
use fuzemsys.Commands.Address.{
  returned, with_offset, after_byte, strchr_plus, parse_symbol, parse_from, parse_addr,
  parse_addr_unrolled,
}
use fuzemsys.Commands.Strtol.{digit_value, digits, skip_prefix, skip_space, signed, strtol, isspace}

-- A digit of printf's %X.
abbrev pub hex_digit : ℕ → ℕ
hex_digit d = if ltb d 10 then 0x30 + d else 55 + d

-- printf("%X"), with as many rounds as the number has digits at most.
abbrev pub hex_from : ℕ → ℕ → List ℕ
hex_from zero n = hex_digit (n % 16) ∷ []
hex_from (suc fuel) n = elim (ltb n 16) [
  | true ↦ hex_digit n ∷ []
  | false ↦ hex_from fuel (n / 16) ++ (hex_digit (n % 16) ∷ [])
]

digit_value-hex_digit : (d : ℕ) → d < 16 → digit_value (hex_digit d) ≡ d
unfolding all_below
digit_value-hex_digit d h =
    let all = all_below_sound 16 (λ (k : ℕ). digit_value (hex_digit k) == k) d refl h in
    ground (arith, all)

digits-hex :
    (so_far d : ℕ) (str : List ℕ)
    → d < 16
    → digits 16 so_far (hex_digit d ∷ str) ≡ digits 16 (so_far * 16 + d) str
digits-hex so_far d str h =
    let value = digit_value-hex_digit d h in
    let is_digit : ltb (digit_value (hex_digit d)) 16 ≡ true = rw value (ground (arith, h)) in
    (λ i. elim (is_digit i) [
      | true ↦ digits 16 (so_far * 16 + digit_value (hex_digit d)) str
      | false ↦ so_far
    ])
    ∙ ap (λ (v : ℕ). digits 16 (so_far * 16 + v) str) value

hex_from-small : (fuel n : ℕ) → ltb n 16 ≡ true → hex_from (suc fuel) n ≡ hex_digit n ∷ []
hex_from-small fuel n e = λ i. elim (e i) [
  | true ↦ hex_digit n ∷ []
  | false ↦ hex_from fuel (n / 16) ++ (hex_digit (n % 16) ∷ [])
]

hex_from-large :
    (fuel n : ℕ)
    → ltb n 16 ≡ false
    → hex_from (suc fuel) n ≡ hex_from fuel (n / 16) ++ (hex_digit (n % 16) ∷ [])
hex_from-large fuel n e = λ i. elim (e i) [
  | true ↦ hex_digit n ∷ []
  | false ↦ hex_from fuel (n / 16) ++ (hex_digit (n % 16) ∷ [])
]

-- The bytes of a number, read.
digits-hex_from :
    (fuel n : ℕ) (rest : List ℕ)
    → n < 16 ^ suc fuel
    → digits 16 0 (hex_from fuel n ++ rest) ≡ digits 16 n rest
digits-hex_from zero n rest h =
    let small : n < 16 = h in
    digits-hex 0 (n % 16) rest (omega arith)
    ∙ ap (λ (v : ℕ). digits 16 v rest) (omega (arith, small))
digits-hex_from (suc fuel) n rest h = elim (Bool-cases (ltb n 16)) [
  | inl e ↦
      let small : n < 16 = ground (arith, e) in
      ap (λ (l : List ℕ). digits 16 0 (l ++ rest)) (hex_from-small fuel n e)
      ∙ digits-hex 0 n rest small
      ∙ ap (λ (v : ℕ). digits 16 v rest) (omega arith)
  | inr e ↦
      let power : n < 16 ^ fuel * 16 * 16 = simp unary_clauses at h in
      ap (λ (l : List ℕ). digits 16 0 (l ++ rest)) (hex_from-large fuel n e)
      ∙ ap (λ (l : List ℕ). digits 16 0 l)
          (append_assoc (hex_from fuel (n / 16)) (hex_digit (n % 16) ∷ []) rest)
      ∙ digits-hex_from fuel (n / 16) (hex_digit (n % 16) ∷ rest)
          (simp unary_clauses (omega (arith, power)))
      ∙ digits-hex (n / 16) (n % 16) rest (omega arith)
      ∙ ap (λ (v : ℕ). digits 16 v rest) (omega arith)
]

-- Digits.
abbrev AllHex : List ℕ → Type 0
AllHex [] = Unit
AllHex (c ∷ str) = (ltb (digit_value c) 16 ≡ true) × AllHex str

AllHex-append : (xs ys : List ℕ) → AllHex xs → AllHex ys → AllHex (xs ++ ys)
AllHex-append [] ys h h' = h'
AllHex-append (c ∷ xs) ys h h' = (h.0, AllHex-append xs ys h.1 h')

hex_digit-AllHex : (d : ℕ) → d < 16 → AllHex (hex_digit d ∷ [])
hex_digit-AllHex d h = let value = digit_value-hex_digit d h in (rw value (ground (arith, h)), tt)

hex_from-AllHex : (fuel n : ℕ) → AllHex (hex_from fuel n)
hex_from-AllHex zero n = hex_digit-AllHex (n % 16) (omega arith)
hex_from-AllHex (suc fuel) n = elim (Bool-cases (ltb n 16)) [
  | inl e ↦ subst AllHex (sym (hex_from-small fuel n e)) (hex_digit-AllHex n (ground (arith, e)))
  | inr e ↦ subst AllHex (sym (hex_from-large fuel n e)) (
      AllHex-append (hex_from fuel (n / 16)) (hex_digit (n % 16) ∷ [])
        (hex_from-AllHex fuel (n / 16)) (hex_digit-AllHex (n % 16) (omega arith)))
]

true_false {ℓ} : {A : Type ℓ} → true ≡ false → A
true_false p =
    absurd (subst (λ (b : Bool). elim b as (λ _. Type 0) [ true ↦ Unit | false ↦ ⊥ ]) p tt)

-- No digit is below the digit 0, which is behind the blanks and the signs.
digit-le : (c : ℕ) → ltb (digit_value c) 16 ≡ true → 0x30 ≤ c
unfolding all_below
digit-le c h = elim (Bool-cases (ltb c 0x30)) [
  | inl low ↦
      let none_below =
        all_below_sound 0x30 (λ (k : ℕ). not (ltb (digit_value k) 16)) c refl
          (ground (arith, low)) in
      true_false (sym none_below ∙ ap not h)
  | inr e ↦ ground (arith, e)
]

not_digit :
    (c k : ℕ) → ltb (digit_value c) 16 ≡ true → ltb (digit_value k) 16 ≡ false → (c == k) ≡ false
not_digit c k h h' = elim (Bool-cases (c == k)) [
  | inl e ↦
      let same : c ≡ k = ground (arith, e) in
      true_false (sym h ∙ ap (λ (v : ℕ). ltb (digit_value v) 16) same ∙ h')
  | inr e ↦ e
]

skip_prefix-AllHex : (str : List ℕ) → AllHex str → skip_prefix 16 str ≡ str
skip_prefix-AllHex [] h = refl
skip_prefix-AllHex (c ∷ []) h = refl
skip_prefix-AllHex (c ∷ x ∷ []) h = refl
skip_prefix-AllHex (c ∷ x ∷ d ∷ str) (hc, (hx, (hd, h))) =
    let lower : (x == b'x') ≡ false = not_digit x b'x' hx refl in
    let upper : (x == b'X') ≡ false = not_digit x b'X' hx refl in
    rw (lower, upper) (elim (Bool-cases (c == 0x30)) [ inl e ↦ rw e refl | inr e ↦ rw e refl ])

skip_space-AllHex : (str : List ℕ) → AllHex str → skip_space str ≡ str
skip_space-AllHex [] h = refl
skip_space-AllHex (c ∷ str) (hc, h) =
    let low = digit-le c hc in
    let no_space : isspace c ≡ false = ground (arith, low) in
    λ i. elim (no_space i) [ true ↦ skip_space str | false ↦ c ∷ str ]

signed-AllHex :
    (str : List ℕ) → AllHex str → digits 16 0 str < 2 ^ 32 → signed 16 str ≡ digits 16 0 str
signed-AllHex [] h small = refl
signed-AllHex (c ∷ str) h small =
    let low = digit-le c h.0 in
    let not_minus : (c == b'-') ≡ false = ground (arith, low) in
    let not_plus : (c == b'+') ≡ false = ground (arith, low) in
    rw (not_minus, not_plus)
      (ap (λ (l : List ℕ). min (digits 16 0 l) (2 ^ 63 - 1) % 2 ^ 32)
          (skip_prefix-AllHex (c ∷ str) h)
        ∙ omega (arith, small))

-- What %X prints of an unsigned, strtol reads.
pub strtol-hex_from : (n : ℕ) → n < 2 ^ 32 → strtol 16 (hex_from 7 n) ≡ n
strtol-hex_from n h =
    let all = hex_from-AllHex 7 n in
    let value : digits 16 0 (hex_from 7 n) ≡ n =
      ap (λ (l : List ℕ). digits 16 0 l) (sym (append-nil (hex_from 7 n)))
      ∙ digits-hex_from 7 n [] (omega (arith, h)) in
    ap (signed 16) (skip_space-AllHex (hex_from 7 n) all)
    ∙ signed-AllHex (hex_from 7 n) all (omega (arith, value, h))
    ∙ value

-- No sign in a symbol's name, and it starts neither with $ nor with a digit.
abbrev NoPlus : Name → Type 0
NoPlus [] = Unit
NoPlus (c ∷ str) = ((c == b'+') ≡ false) × NoPlus str

abbrev pub IsSymbol : Name → Type 0
IsSymbol [] = ⊥
IsSymbol (c ∷ str) = ((c == b'$') ≡ false) × ((leb 0x30 c && leb c 0x39) ≡ false) × NoPlus (c ∷ str)

-- printf("%s+$%X"), as the list of breakpoints has it.
abbrev pub printed : Name → ℕ → Name
printed name n = name ++ (b'+' ∷ b'$' ∷ hex_from 7 n)

strchr_plus-append :
    (name rest : Name)
    → NoPlus name
    → strchr_plus (name ++ (b'+' ∷ rest)) ≡ record { name = name; offset = some rest }
strchr_plus-append [] rest h = refl
strchr_plus-append (c ∷ name) rest (h, hs) =
    (λ i. elim (h i) [
      | true ↦ record { name = []; offset = some (name ++ (b'+' ∷ rest)) }
      | false ↦ after_byte c (strchr_plus (name ++ (b'+' ∷ rest)))
    ])
    ∙ ap (after_byte c) (strchr_plus-append name rest hs)

parse_addr-hex :
    (n : ℕ) (s : Symbols)
    → n < 2 ^ 32
    → parse_addr (b'$' ∷ hex_from 7 n) s
      ≡ returned (record { value = n; issym = some false; left = b'$' ∷ hex_from 7 n })
unfolding parse_from
parse_addr-hex n s h =
    ap (λ (v : ℕ). returned (record { value = v; issym = some false; left = b'$' ∷ hex_from 7 n }))
      (strtol-hex_from n h)

-- For a name without + that starts neither with $ nor with a digit, and that is a symbol of the table, and an
-- offset that is a uint32_t other than -1, parse_addr reads what the list of breakpoints prints for them as the sum of the
-- symbol's address and the offset, modulo 2 ^ 32, as a symbol, and leaves the name.
pub parse_addr-printed :
    (name : Name) (n : ℕ) (s : Symbols)
    → IsSymbol name
    → n < no_addr
    → (get_sym_address name s == no_addr) ≡ false
    → parse_addr (printed name n) s
      ≡ returned
          (record { value = (get_sym_address name s + n) % 2 ^ 32; issym = some true; left = name })
parse_addr-printed [] n s h small known = absurd h
parse_addr-printed (c ∷ name) n s (no_hex, no_decimal, no_plus) small known =
    let rest = b'$' ∷ hex_from 7 n in
    let read = parse_addr-hex n s (omega (arith, small)) in
    let valid : (n == no_addr) ≡ false = ground (arith, small) in
    parse_addr_unrolled (printed (c ∷ name) n) s
    ∙ rw (no_hex, no_decimal)
        (ap (parse_symbol (λ r. parse_addr r s) s) (strchr_plus-append (c ∷ name) rest no_plus)
          ∙ ap (with_offset s (c ∷ name)) read
          ∙ rw (valid, known) refl)
