-- ===== src/Commands/Back.antt =====
-- The place that the monitor prints for an address, given back to it.
-- Code: emulators/emumon.c (parse_addr), emulators/mapfile.c (get_symbol_and_offset, get_sym_address).
use fuzemsys.Base.{
  ℕ, zero, suc, ◌-◌, ◌^◌, ◌<◌, ◌≤◌, ◌≡◌, ◌≢◌, refl, sym, ap, ◌∙◌, Bool, true, false, Option, none,
  some, List, [], ◌∷◌, ◌==◌, Bool-cases, inl, inr, arith, get_elem?,
}
use mathlib.Core.Path.{subst}
use fuzemsys.Breakpoints.{no_addr}
use fuzemsys.Symbols.{
  Name, MapEntry, Symbols, Lookup, symbol, same_name, named, find_address, get_sym_address,
  get_symbol_and_offset,
}
use fuzemsys.Symbols.Nearest.{IsTable, get_symbol_and_offset-nearest}
use fuzemsys.Commands.Address.{returned, parse_addr}
use fuzemsys.Commands.Print.{IsSymbol, printed, parse_addr-printed}

-- Every entry of that name is at that address.
abbrev pub AllAt : Name → ℕ → List MapEntry → Type 0
AllAt name place [] = Unit
AllAt name place (e ∷ es) =
    (elim (named name e) [ true ↦ e.addr ≡ place | false ↦ Unit ]) × AllAt name place es

not_none {ℓ} : {A : Type ℓ} (e : MapEntry) → Path (Option MapEntry) none (some e) → A
not_none e p =
    absurd
      (subst (λ (o : Option MapEntry). elim o as (λ _. Type 0) [ none ↦ Unit | some x ↦ ⊥ ]) p tt)

entry_inj : (d e : MapEntry) → Path (Option MapEntry) (some d) (some e) → d ≡ e
entry_inj d e p = ap (λ (o : Option MapEntry). elim o [ none ↦ d | some x ↦ x ]) p

same_name_refl : (name : Name) → same_name name name ≡ true
unfolding same_name
same_name_refl [] = refl
same_name_refl (c ∷ name) =
    let same : (c == c) ≡ true = ground arith in rw same (same_name_refl name)

named-sym : (e : MapEntry) (name : Name) → e.sym ≡ some name → named name e ≡ true
unfolding named
named-sym e name p =
    ap (λ (o : Option Name). elim o [ none ↦ false | some sym ↦ same_name sym name ]) p
    ∙ same_name_refl name

AllAt-named :
    (name : Name) (place : ℕ) (e : MapEntry)
    → named name e ≡ true
    → elim (named name e) as (λ _. Type 0) [ true ↦ e.addr ≡ place | false ↦ Unit ]
    → e.addr ≡ place
AllAt-named name place e p =
    subst
      (λ (t : Bool).
        elim t as (λ _. Type 0) [ true ↦ e.addr ≡ place | false ↦ Unit ] → e.addr ≡ place)
      (sym p) (λ h. h)

addr-AllAt :
    (name : Name) (place k : ℕ) (es : List MapEntry) (e : MapEntry)
    → AllAt name place es
    → get_elem? es k ≡ some e
    → e.sym ≡ some name
    → e.addr ≡ place
addr-AllAt name place k [] e h p q = not_none e p
addr-AllAt name place zero (d ∷ es) e h p q =
    let same = entry_inj d e p in
    let found : named name d ≡ true = ap (named name) same ∙ named-sym e name q in
    ap (λ (x : MapEntry). x.addr) (sym same) ∙ AllAt-named name place d found h.0
addr-AllAt name place (suc k) (d ∷ es) e h p q = addr-AllAt name place k es e h.1 p q

find_address-AllAt :
    (name : Name) (place k : ℕ) (es : List MapEntry) (e : MapEntry)
    → AllAt name place es
    → get_elem? es k ≡ some e
    → e.sym ≡ some name
    → find_address name es ≡ place
unfolding find_address
find_address-AllAt name place k [] e h p q = not_none e p
find_address-AllAt name place zero (d ∷ es) e h p q =
    let found : named name d ≡ true = ap (named name) (entry_inj d e p) ∙ named-sym e name q in
    rw found (AllAt-named name place d found h.0)
find_address-AllAt name place (suc k) (d ∷ es) e h p q = elim (Bool-cases (named name d)) [
  | inl found ↦ rw found (AllAt-named name place d found h.0)
  | inr other ↦ rw other (find_address-AllAt name place k es e h.1 p q)
]

get_sym_address-AllAt :
    (name : Name) (place k : ℕ) (s : Symbols) (e : MapEntry)
    → IsSymbol name
    → AllAt name place s.maparray
    → get_elem? s.maparray k ≡ some e
    → e.sym ≡ some name
    → get_sym_address name s ≡ place
unfolding get_sym_address
get_sym_address-AllAt [] place k s e h all p q = absurd h
get_sym_address-AllAt (c ∷ name) place k s e h all p q =
    find_address-AllAt (c ∷ name) place k s.maparray e all p q

-- What an answer has.
abbrev symbol_of : Lookup → Option Name
symbol_of (symbol name offset) = name
symbol_of _ = none

abbrev offset_of : Lookup → ℕ
offset_of (symbol name offset) = offset
offset_of _ = 0

-- On a sorted table with symbols, for an address from the first entry's to below the last one's, which is below
-- 2 ^ 32, when get_symbol_and_offset answers a name and an offset, the name has no + and starts
-- neither with $ nor with a digit, and all entries of the name have one address, then what the
-- monitor prints for the answer is read back by parse_addr
-- as the address, by way of the symbol.
pub parse_addr-get_symbol_and_offset :
    (addr : ℕ) (s : Symbols) (first last : MapEntry) (name : Name) (offset place : ℕ)
    → IsTable s
    → get_elem? s.maparray 0 ≡ some first
    → get_elem? s.maparray s.mapcnt ≡ some last
    → s.mapcnt ≢ 0
    → first.addr ≤ addr
    → addr < last.addr
    → last.addr < 2 ^ 32
    → IsSymbol name
    → AllAt name place s.maparray
    → (get_symbol_and_offset addr s).0 ≡ symbol (some name) offset
    → parse_addr (printed name offset) s
      ≡ returned (record { value = addr; issym = some true; left = name })
parse_addr-get_symbol_and_offset addr s first last name offset place table start end used from
      before word named_well all answers =
    let (k, e, next, found, found_next, low, high, nearest) =
      get_symbol_and_offset-nearest addr s last table end before first start from used in
    let same_sym : e.sym ≡ some name = ap symbol_of (sym nearest ∙ answers) in
    let same_offset : addr - e.addr ≡ offset = ap offset_of (sym nearest ∙ answers) in
    let at = addr-AllAt name place k s.maparray e all found same_sym in
    let known = get_sym_address-AllAt name place k s e named_well all found same_sym in
    let is_known : (get_sym_address name s == no_addr) ≡ false =
      ground (arith, known, at, low, before, word) in
    parse_addr-printed name offset s named_well (omega (arith, same_offset, low, before, word))
      is_known
    ∙ ap (λ (v : ℕ). returned (record { value = v; issym = some true; left = name }))
        (omega (arith, known, at, low, same_offset, before, word))
