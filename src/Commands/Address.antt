-- ===== src/Commands/Address.antt =====
-- The address that a string stands for. Code: emulators/emumon.c (parse_addr).
-- A string is the list of its bytes. An int is a number below 2 ^ 32.
use fuzemsys.Base.{
  if_both, sym, ◌∙◌, ℕ, zero, suc, ◌+◌, ◌%◌, ◌^◌, ◌<◌, ◌≡◌, refl, ap, Bool, true, false, ◌&&◌,
  Option, none, some, [], ◌∷◌, length, leb, ◌==◌, if◌then◌else◌, arith,
}
use mathlib.Core.Path.{subst}
use fuzemsys.Breakpoints.{no_addr}
use fuzemsys.Symbols.{Name, Symbols, get_sym_address}
use fuzemsys.Commands.Strtol.{strtol}

-- The address, what issym is set to, if it is, and the string, which ends where the sign of an offset was.
pub record Parsed : Type 0 where
  pub value : ℕ
  pub issym : Option Bool
  pub left : Name

-- strchr(addr, '+'): what stands before the sign, and what stands behind it, if there is one.
pub record Parts : Type 0 where
  pub name : Name
  pub offset : Option Name

abbrev pub after_byte : ℕ → Parts → Parts
after_byte c p = record p { name = c ∷ p.name }

abbrev pub strchr_plus : Name → Parts
strchr_plus [] = record { name = []; offset = none }
strchr_plus (c ∷ str) = elim (c == b'+') [
  | true ↦ record { name = []; offset = some str }
  | false ↦ after_byte c (strchr_plus str)
]

-- The symbol, with the offset.
abbrev pub at_symbol : Symbols → Name → ℕ → Parsed
at_symbol s name offset =
    let symaddr = get_sym_address name s in
    record {
      value = if symaddr == no_addr then no_addr else (symaddr + offset) % 2 ^ 32;
      issym = some true;
      left = name;
    }

-- A call of parse_addr: it returns, or the calls that it may make are used up, which the code has no case of.
pub data Call : Type 0 where
  returned : Parsed → Call
  out_of_calls : Call

-- `if (offset == -1)` and what follows it.
abbrev pub with_offset : Symbols → Name → Call → Call
with_offset s name (returned p) = returned (
    if p.value == no_addr
    then record { value = no_addr; issym = some false; left = name }
    else at_symbol s name p.value)
with_offset s name out_of_calls = out_of_calls

abbrev pub parse_offset : (Name → Call) → Symbols → Name → Option Name → Call
parse_offset parse_rest s name none = returned (at_symbol s name 0)
parse_offset parse_rest s name (some rest) = with_offset s name (parse_rest rest)

abbrev pub parse_symbol : (Name → Call) → Symbols → Parts → Call
parse_symbol parse_rest s p = parse_offset parse_rest s p.name p.offset

-- parse_addr, with its call of itself as an argument.
abbrev pub parse_body : (Name → Call) → Symbols → Name → Call
parse_body parse_rest s [] = returned (record { value = no_addr; issym = none; left = [] })
parse_body parse_rest s (c ∷ str) =
    if c == b'$'
    then returned (record { value = strtol 16 str; issym = some false; left = c ∷ str })
    else if leb 0x30 c && leb c 0x39
    then returned (record { value = strtol 10 (c ∷ str); issym = some false; left = c ∷ str })
    else parse_symbol parse_rest s (strchr_plus (c ∷ str))

-- With a bound on the calls, each of which is for a part of the string.
unfoldable pub parse_from : ℕ → Symbols → Name → Call
parse_from zero s str = out_of_calls
parse_from (suc calls) s str = parse_body (parse_from calls s) s str

abbrev pub parse_addr : Name → Symbols → Call
parse_addr str s = parse_from (suc (length str)) s str

abbrev IsShorter : Name → Option Name → Type 0
IsShorter str none = Unit
IsShorter str (some rest) = length rest < length str

IsShorter-byte : (c : ℕ) (str : Name) (o : Option Name) → IsShorter str o → IsShorter (c ∷ str) o
IsShorter-byte c str none h = tt
IsShorter-byte c str (some rest) h = omega (arith, h)

-- What stands behind the sign is shorter.
offset-IsShorter : (str : Name) → IsShorter str (strchr_plus str).offset
offset-IsShorter [] = tt
offset-IsShorter (c ∷ str) =
    elim (c == b'+')
      as (λ (t : Bool).
        IsShorter (c ∷ str)
          (elim t as (λ _. Parts) [
            | true ↦ record { name = []; offset = some str }
            | false ↦ after_byte c (strchr_plus str)
          ]).offset) [
            | true ↦ omega arith
            | false ↦ IsShorter-byte c str (strchr_plus str).offset (offset-IsShorter str)
          ]

parse_offset-same :
    (f g : Name → Call) (s : Symbols) (name : Name) (o : Option Name)
    → ((rest : Name) → o ≡ some rest → f rest ≡ g rest)
    → parse_offset f s name o ≡ parse_offset g s name o
parse_offset-same f g s name none same = refl
parse_offset-same f g s name (some rest) same = ap (with_offset s name) (same rest refl)

-- The body reads its argument at shorter strings only.
parse_body-same :
    (f g : Name → Call) (s : Symbols) (str : Name)
    → ((rest : Name) → length rest < length str → f rest ≡ g rest)
    → parse_body f s str ≡ parse_body g s str
parse_body-same f g s [] same = refl
parse_body-same f g s (c ∷ str) same =
    let p = strchr_plus (c ∷ str) in
    ap
      (λ (r : Call).
        if c == b'$'
        then returned (record { value = strtol 16 str; issym = some false; left = c ∷ str })
        else if leb 0x30 c && leb c 0x39
        then returned (record { value = strtol 10 (c ∷ str); issym = some false; left = c ∷ str })
        else r)
      (parse_offset-same f g s p.name p.offset
        (λ rest e. same rest (subst (IsShorter (c ∷ str)) e (offset-IsShorter (c ∷ str)))))

fuels_agree :
    (m n : ℕ) (s : Symbols) (str : Name)
    → length str < m
    → length str < n
    → parse_from m s str ≡ parse_from n s str
unfolding parse_from
fuels_agree zero n s str h h' = absurd (omega (arith, h))
fuels_agree (suc m) zero s str h h' = absurd (omega (arith, h'))
fuels_agree (suc m) (suc n) s str h h' =
    parse_body-same (parse_from m s) (parse_from n s) s str (λ rest shorter.
      fuels_agree m n s rest (omega (arith, h, shorter)) (omega (arith, h', shorter)))

pub parse_addr_unrolled :
    (str : Name) (s : Symbols) → parse_addr str s ≡ parse_body (λ rest. parse_addr rest s) s str
unfolding parse_from
parse_addr_unrolled str s =
    parse_body-same (parse_from (length str) s) (λ rest. parse_addr rest s) s str
      (λ rest shorter. fuels_agree (length str) (suc (length rest)) s rest shorter (omega arith))

abbrev Returns : Call → Type 0
Returns (returned p) = Unit
Returns out_of_calls = ⊥

parse_offset-Returns :
    (f : Name → Call) (s : Symbols) (name : Name) (o : Option Name)
    → ((rest : Name) → o ≡ some rest → Returns (f rest))
    → Returns (parse_offset f s name o)
parse_offset-Returns f s name none h = tt
parse_offset-Returns f s name (some rest) h = carry (f rest) (h rest refl)
  where
    carry : (c : Call) → Returns c → Returns (with_offset s name c)
    carry (returned p) h' = tt
    carry out_of_calls h' = h'

parse_from-Returns :
    (calls : ℕ) (s : Symbols) (str : Name) → length str < calls → Returns (parse_from calls s str)
unfolding parse_from
parse_from-Returns zero s str h = absurd (omega (arith, h))
parse_from-Returns (suc calls) s [] h = tt
parse_from-Returns (suc calls) s (c ∷ str) h =
    let p = strchr_plus (c ∷ str) in
    let shorter = offset-IsShorter (c ∷ str) in
    if_both Returns (c == b'$') tt (
      if_both Returns (leb 0x30 c && leb c 0x39) tt (
        parse_offset-Returns (parse_from calls s) s p.name p.offset (λ rest e.
          let less = subst (IsShorter (c ∷ str)) e shorter in
          parse_from-Returns calls s rest (omega (arith, h, less)))))

result_of : (c : Call) → Returns c → (r : Parsed) × (c ≡ returned r)
result_of (returned p) h = (p, refl)
result_of out_of_calls h = absurd h

-- For every string and symbol table parse_addr returns, before the bound on its calls is used up: its
-- result is the result of its body with parse_addr itself as the call in it.
pub parse_addr_returns :
    (str : Name) (s : Symbols)
    → (r : Parsed) × (parse_addr str s ≡ returned r)
      × (parse_body (λ rest. parse_addr rest s) s str ≡ returned r)
parse_addr_returns str s =
    let (r, e) =
      result_of (parse_addr str s) (parse_from-Returns (suc (length str)) s str (omega arith)) in
    (r, e, sym (parse_addr_unrolled str s) ∙ e)
