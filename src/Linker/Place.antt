-- ===== src/Linker/Place.antt =====
-- The places of the objects within a segment. Code: cmds/bintools/ld.c (set_segment_bases).
use fuzemsys.Base.{
  ℕ, zero, suc, ◌+◌, ◌-◌, ◌^◌, ◌<◌, ◌≤◌, ◌≡◌, ◌≢◌, refl, sym, ap, ◌∙◌, Bool, true, false, Option,
  none, some, List, [], ◌∷◌, ◌==◌, ltb, if◌then◌else◌, get_elem?, Bool-cases, inl, inr, arith,
}
use fuzemsys.Base.Bits.{u16}
use fuzemsys.ObjectFile.{oseg, absolute}
use fuzemsys.Linker.Layout.{
  Object, segment_too_large, Result, placed, failed, Failure, ◌>>=◌, set_at, add_sizes, sum_sizes,
  place_objects,
}

-- The sizes in the headers are words.
abbrev pub HaveWords : List Object → Type 0
HaveWords [] = Unit
HaveWords (o ∷ objects) = ((i : ℕ) → o.o_size i < 2 ^ 16) × HaveWords objects

-- What the objects take of a segment.
abbrev pub total : ℕ → List Object → ℕ
total seg [] = 0
total seg (o ∷ objects) = o.o_size seg + total seg objects

-- What holds of what is placed, if it is.
abbrev pub Holds : {A : Type 0} → (A → Type 0) → Result A → Type 0
Holds P (placed a) = P a
Holds P (failed e) = Unit

pub record OnPlaced {A : Type 0} (P : A → Type 0) (r : Result A) : Type 0 where
  pub holds : Holds P r

pub checked :
    {A : Type 0} {P : A → Type 0} (test : Bool) (failure : Failure) {r : Result A}
    → (test ≡ false → OnPlaced P r)
    → OnPlaced P (if test then failed failure else r)
checked true failure h = record { holds = tt }
checked false failure h = h refl

pub bind-OnPlaced :
    {A B : Type 0} (P : A → Type 0) {Q : B → Type 0} (r : Result A) {f : A → Result B}
    → OnPlaced P r
    → ((a : A) → P a → OnPlaced Q (f a))
    → OnPlaced Q (r >>= f)
bind-OnPlaced P (placed a) h hf = hf a h.holds
bind-OnPlaced P (failed e) h hf = record { holds = tt }

pub weaken-OnPlaced :
    {A : Type 0} (P : A → Type 0) {Q : A → Type 0} (r : Result A)
    → OnPlaced P r
    → ((a : A) → P a → Q a)
    → OnPlaced Q r
weaken-OnPlaced P (placed a) h hf = record { holds = hf a h.holds }
weaken-OnPlaced P (failed e) h hf = record { holds = tt }

no_wrap : (a b : ℕ) → a < 2 ^ 16 → b < 2 ^ 16 → ltb (u16 (a + b)) b ≡ false → u16 (a + b) ≡ a + b
no_wrap a b a-lt b-lt e = ground (arith, e, a-lt, b-lt)

module _ (seg : ℕ) where
  add_sizes-after :
      (n i : ℕ) (o : Object) (size : ℕ → ℕ)
      → seg < i
      → OnPlaced (λ size'. size' seg ≡ size seg) (add_sizes n i o size)
  unfolding add_sizes
  add_sizes-after zero i o size after = record { holds = refl }
  add_sizes-after (suc n) i o size after =
      checked (ltb (u16 (size i + o.o_size i)) (o.o_size i)) segment_too_large λ e.
        let other : (seg == i) ≡ false = ground (arith, after) in
        rw other at (
          add_sizes-after n (i + 1) o (set_at size i (u16 (size i + o.o_size i)))
            (omega (arith, after)))

  neq : (i : ℕ) → (seg == i) ≡ false → seg ≢ i
  neq i e is = ground (arith, e, is)

  add_sizes-at :
      (n i : ℕ) (o : Object) (size : ℕ → ℕ)
      → i ≤ seg
      → seg < i + n
      → size seg < 2 ^ 16
      → o.o_size seg < 2 ^ 16
      → OnPlaced
          (λ size'. (size' seg ≡ size seg + o.o_size seg) × (size seg + o.o_size seg < 2 ^ 16))
          (add_sizes n i o size)
  unfolding add_sizes
  add_sizes-at zero i o size above below small word = absurd (omega (arith, above, below))
  add_sizes-at (suc n) i o size above below small word =
      checked (ltb (u16 (size i + o.o_size i)) (o.o_size i)) segment_too_large λ e.
        elim (Bool-cases (seg == i)) [
          | inl here ↦
              let is : seg ≡ i = ground (arith, here) in
              let fits : u16 (size i + o.o_size i) ≡ size seg + o.o_size seg =
                rw (sym is) (no_wrap (size seg) (o.o_size seg) small word (rw (sym is) at e)) in
              weaken-OnPlaced _ _
                (add_sizes-after n (i + 1) o (set_at size i (u16 (size i + o.o_size i)))
                  (omega (arith, is)))
                (λ size' h. (h ∙ rw here fits, omega (arith, fits)))
          | inr other ↦ rw other at (
              add_sizes-at n (i + 1) o (set_at size i (u16 (size i + o.o_size i)))
                (omega (arith, above, neq i other)) (omega (arith, below)) (rw other small) word)
        ]

  pub sum_sizes-total :
      (objects : List Object) (size : ℕ → ℕ)
      → 1 ≤ seg
      → seg < oseg
      → size seg < 2 ^ 16
      → HaveWords objects
      → OnPlaced
          (λ size'. (size' seg ≡ size seg + total seg objects) × (size' seg < 2 ^ 16))
          (sum_sizes objects size)
  unfolding sum_sizes
  sum_sizes-total [] size above below small words = record { holds = (omega arith, small) }
  sum_sizes-total (o ∷ objects) size above below small words =
      bind-OnPlaced
        (λ size'. (size' seg ≡ size seg + o.o_size seg) × (size seg + o.o_size seg < 2 ^ 16)) _
        (add_sizes-at (oseg - 1) 1 o size above (omega (arith, below)) small (words.0 seg))
        λ size' h.
          weaken-OnPlaced _ _
            (sum_sizes-total objects size' above below (omega (arith, h.0, h.1)) words.1)
            (λ size'' k. (omega (arith, h.0, k.0), k.1))

  -- Of the first object that is placed.
  first_base :
      (o : Object) (pos : ℕ → ℕ) (a : Object)
      → 1 ≤ seg
      → some (record o { base = λ i. if i == absolute then 0 else pos i }) ≡ some a
      → (a.base seg ≡ pos seg) × (a.o_size seg ≡ o.o_size seg)
  first_base o pos a above e =
      let other : (seg == absolute) ≡ false = ground (arith, above) in
      (
        sym (ap (λ (x : Option Object). elim x [ none ↦ 0 | some b ↦ b.base seg ]) e)
            ∙ rw other refl,
        sym (ap (λ (x : Option Object). elim x [ none ↦ 0 | some b ↦ b.o_size seg ]) e),
      )

  next_position :
      (o : Object) (pos : ℕ → ℕ)
      → 1 ≤ seg
      → pos seg + o.o_size seg < 2 ^ 16
      → (if seg == absolute then pos seg else u16 (pos seg + o.o_size seg)) ≡ pos seg + o.o_size seg
  next_position o pos above fits = ground (arith, above, fits)

  -- An object's part of the segment lies within what is left of it.
  pub place_objects-within :
      (objects : List Object) (pos : ℕ → ℕ) (k : ℕ) (a : Object)
      → 1 ≤ seg
      → pos seg + total seg objects < 2 ^ 16
      → get_elem? (place_objects objects pos) k ≡ some a
      → (pos seg ≤ a.base seg) × (a.base seg + a.o_size seg ≤ pos seg + total seg objects)
  unfolding place_objects
  place_objects-within [] pos k a above fits e = absurd (ground (arith, e))
  place_objects-within (o ∷ objects) pos zero a above fits e =
      let (b, s) = first_base o pos a above e in (omega (arith, b), omega (arith, b, s))
  place_objects-within (o ∷ objects) pos (suc k) a above fits e =
      let next = next_position o pos above (omega (arith, fits)) in
      let (low, high) =
        place_objects-within objects
          (λ i. if i == absolute then pos i else u16 (pos i + o.o_size i)) k a above
          (omega (arith, next, fits)) e in
      (omega (arith, low, next), omega (arith, high, next))

  -- Of two objects, the part of the one that comes first ends where that of the other starts or before.
  pub place_objects-apart :
      (objects : List Object) (pos : ℕ → ℕ) (j k : ℕ) (a b : Object)
      → 1 ≤ seg
      → pos seg + total seg objects < 2 ^ 16
      → j < k
      → get_elem? (place_objects objects pos) j ≡ some a
      → get_elem? (place_objects objects pos) k ≡ some b
      → a.base seg + a.o_size seg ≤ b.base seg
  unfolding place_objects
  place_objects-apart [] pos j k a b above fits j-lt e e' = absurd (ground (arith, e))
  place_objects-apart (o ∷ objects) pos j zero a b above fits j-lt e e' =
      absurd (omega (arith, j-lt))
  place_objects-apart (o ∷ objects) pos zero (suc k) a b above fits j-lt e e' =
      let (base, size) = first_base o pos a above e in
      let next = next_position o pos above (omega (arith, fits)) in
      let (low, high) =
        place_objects-within objects
          (λ i. if i == absolute then pos i else u16 (pos i + o.o_size i)) k b above
          (omega (arith, next, fits)) e' in
      omega (arith, base, size, next, low)
  place_objects-apart (o ∷ objects) pos (suc j) (suc k) a b above fits j-lt e e' =
      let next = next_position o pos above (omega (arith, fits)) in
      place_objects-apart objects (λ i. if i == absolute then pos i else u16 (pos i + o.o_size i)) j
        k a b above (omega (arith, next, fits)) (omega (arith, j-lt)) e e'
