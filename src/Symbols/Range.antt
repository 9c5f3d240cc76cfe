-- ===== src/Symbols/Range.antt =====
-- The addresses of a symbol. Code: emulators/mapfile.c (get_sym_address, get_sym_end_address).
use fuzemsys.Base.{
  ℕ, zero, suc, ◌≤◌, ◌<◌, ◌≡◌, ◌≢◌, refl, some, List, [], ◌∷◌, ltb, arith, get_elem?, Bool-cases,
  inl, inr, ◌⊎◌,
}
use fuzemsys.Breakpoints.{no_addr}
use fuzemsys.Symbols.{
  MapEntry, Symbols, Name, named, find_address, get_sym_address, next_higher, find_end,
  get_sym_end_address,
}
use fuzemsys.Symbols.Order.{IsSorted, sorted-get_elem?}

next_higher-ge : (a : ℕ) (es : List MapEntry) → next_higher a es ≢ no_addr → a ≤ next_higher a es
unfolding next_higher
next_higher-ge a [] h = absurd (h refl)
next_higher-ge a (e ∷ es) h = elim (Bool-cases (ltb a e.addr)) [
  | inl higher ↦ ground arith
  | inr lower ↦ rw (lower, next_higher) (next_higher-ge a es (rw (lower, next_higher) at h))
]

-- An entry after a symbol's lies at the symbol's address or past its end.
next_higher-free :
    (a low k : ℕ) (es : List MapEntry) (e : MapEntry)
    → IsSorted low es
    → get_elem? es k ≡ some e
    → (e.addr ≤ a) ⊎ (next_higher a es < e.addr)
unfolding next_higher
next_higher-free a low k [] e h there = cc
next_higher-free a low zero (x ∷ es) e (p, h) there = elim (Bool-cases (ltb a x.addr)) [
  | inl higher ↦ inr (ground arith)
  | inr lower ↦ inl (ground arith)
]
next_higher-free a low (suc k) (x ∷ es) e (p, h) there = elim (Bool-cases (ltb a x.addr)) [
  | inl higher ↦ let above = sorted-get_elem? k x.addr es {e = e} h there in inr (ground arith)
  | inr lower ↦ rw (lower, next_higher) (next_higher-free a x.addr k es e h there)
]

-- No entry lies above `start` and up to `end`.
abbrev pub IsFree : ℕ → ℕ → List MapEntry → Type 0
IsFree start end es =
    (k : ℕ) (e : MapEntry) → get_elem? es k ≡ some e → (e.addr ≤ start) ⊎ (end < e.addr)

IsFree-cons :
    (start end : ℕ) (x : MapEntry) (es : List MapEntry)
    → x.addr ≤ start
    → IsFree start end es
    → IsFree start end (x ∷ es)
IsFree-cons start end x es h f zero e there = inl (ground arith)
IsFree-cons start end x es h f (suc k) e there = f k e there

-- The same from the start of the table, over both loops.
range :
    (name : Name) (low : ℕ) (es : List MapEntry)
    → IsSorted low es
    → find_end name es ≢ no_addr
    → (low ≤ find_address name es)
      × (find_address name es ≤ find_end name es)
      × IsFree (find_address name es) (find_end name es) es
unfolding find_address find_end
range name low [] h used = absurd (used refl)
range name low (x ∷ es) (p, h) used = elim (Bool-cases (named name x)) [
  | inl here ↦
      rw (here, find_address, find_end)
        (
          p,
          next_higher-ge x.addr es (rw (here, find_end) at used),
          IsFree-cons x.addr _ x es (omega arith) (λ k e. next_higher-free x.addr x.addr k es e h),
        )
  | inr other ↦
      let (ge, le, free) = range name x.addr es h (rw (other, find_end) at used) in
      rw (other, find_address, find_end) (omega (arith, p, ge), le, IsFree-cons _ _ x es ge free)
]

-- In a sorted table, if the end address of a symbol is not -1, it is at or above the symbol's address, and
-- no entry of the table lies above the symbol's address and up to the end address.
pub get_sym_address-le-get_sym_end_address :
    (name : Name) (s : Symbols)
    → IsSorted 0 s.maparray
    → get_sym_end_address name s ≢ no_addr
    → (get_sym_address name s ≤ get_sym_end_address name s)
      × IsFree (get_sym_address name s) (get_sym_end_address name s) s.maparray
unfolding get_sym_address get_sym_end_address
get_sym_address-le-get_sym_end_address [] s h used = absurd (used refl)
get_sym_address-le-get_sym_end_address (c ∷ cs) s h used =
    let (ge, le, free) = range (c ∷ cs) 0 s.maparray h used in (le, free)
