-- ===== src/Linker/Apart.antt =====
-- The objects of a link lie apart. Code: cmds/bintools/ld.c (set_segment_bases and what it calls).
use fuzemsys.Base.{
  ◌⊎◌, inl, inr, ℕ, ◌+◌, ◌*◌, ◌^◌, ◌<◌, ◌≤◌, ◌≡◌, refl, ◌∙◌, Bool, true, false, ◌&&◌, ◌||◌, not,
  Option, none, some, List, [], ◌∷◌, ◌==◌, leb, ltb, if_both, ◌-◌, ◌/◌, if◌then◌else◌, get_elem?,
  arith,
}
use mathlib.Core.Path.{subst}
use fuzemsys.Base.Bits.{u16}
use fuzemsys.ObjectFile.{oseg, data_segment}
use fuzemsys.Linker.{Mode, is_rflag}
use fuzemsys.Linker.Table.{Table}
use fuzemsys.Linker.Layout.{
  invalid_segment_order, Object, Layout, Result, placed, failed, ◌>>=◌, append_segment, order_from,
  order_segments, place_objects, segment_letter, segnames,
}
use fuzemsys.Linker.Place.{
  HaveWords, total, Holds, OnPlaced, bind-OnPlaced, weaken-OnPlaced, sum_sizes-total,
  place_objects-within, place_objects-apart,
}
use fuzemsys.Linker.Bases.{is_reloc, split_data, is_too_large, finish_bases, set_segment_bases}

either :
    {A : Type 0} {P : A → Type 0} (test : Bool) {r r' : Result A}
    → OnPlaced P r
    → OnPlaced P r'
    → OnPlaced P (if test then r else r')
either true h h' = h
either false h h' = h'

append_segment-size :
    (a b : ℕ) (l : Layout) → OnPlaced (λ l'. l'.size ≡ l.size) (append_segment a b l)
unfolding append_segment
append_segment-size a b l =
    either (l.baseset a) (record { holds = refl })
      (either (ltb (u16 ((l.base b + l.size b + l.align - 1) / l.align * l.align)) (l.base b))
        (record { holds = tt }) (record { holds = refl }))

next-size :
    (last : Option ℕ) (n : ℕ) (l : Layout)
    → OnPlaced
        (λ l'. l'.size ≡ l.size)
        (elim last [
          | none ↦ placed l
          | some previous ↦ if l.baseset n then placed l else append_segment n previous l
        ])
next-size none n l = record { holds = refl }
next-size (some previous) n l =
    either (l.baseset n) (record { holds = refl }) (append_segment-size n previous l)

order_from-size :
    (letters : List ℕ) (last : Option ℕ) (l : Layout)
    → OnPlaced (λ l'. l'.size ≡ l.size) (order_from letters last l)
unfolding order_from
order_from-size [] last l = record { holds = refl }
order_from-size (c ∷ letters) last l =
    with_letter (λ n l'. order_from-size letters (some n) l') (segment_letter segnames 1 c)
  where
    with_letter :
        ((n : ℕ) (l' : Layout)
          → OnPlaced (λ l''. l''.size ≡ l'.size) (order_from letters (some n) l'))
        → (found : Option ℕ)
        → OnPlaced
            (λ l'. l'.size ≡ l.size)
            (elim found [
              | none ↦ failed invalid_segment_order
              | some n ↦
                  (elim last [
                    | none ↦ placed l
                    | some previous ↦ if l.baseset n then placed l else append_segment n previous l
                  ])
                  >>= order_from letters (some n)
            ])
    with_letter later none = record { holds = tt }
    with_letter later (some n) =
        bind-OnPlaced (λ l'. l'.size ≡ l.size) _ (next-size last n l)
          λ l' e. weaken-OnPlaced _ _ (later n l') (λ l'' e'. e' ∙ e)

size-split_data :
    (ldmode : Mode) (split_id : Bool) (l : Layout) → (split_data ldmode split_id l).size ≡ l.size
unfolding split_data
size-split_data ldmode split_id l =
    if_both (λ (x : Layout). x.size ≡ l.size)
      (is_reloc ldmode && split_id && not (l.baseset data_segment)) refl refl

-- The objects of a list, in a segment of a layout: each within it, and in order.
abbrev AreApart : ℕ → Layout → List Object → Type 0
AreApart seg l objects =
    (j k : ℕ) (a b : Object)
    → j ≤ k
    → get_elem? objects j ≡ some a
    → get_elem? objects k ≡ some b
    → (l.base seg ≤ a.base seg)
      × (b.base seg + b.o_size seg ≤ l.base seg + l.size seg)
      × ((j ≡ k) ⊎ (a.base seg + a.o_size seg ≤ b.base seg))

le_cases : (j k : ℕ) → j ≤ k → (j ≡ k) ⊎ (j < k)
le_cases j k h = ground arith

module _ (seg : ℕ) (above : 1 ≤ seg) (below : seg < oseg) where
  placed-AreApart :
      (objects : List Object) (l : Layout)
      → l.size seg ≡ total seg objects
      → l.base seg + l.size seg < 2 ^ 16
      → AreApart seg l (place_objects objects l.base)
  placed-AreApart objects l size fits j k a b j-le e e' =
      let fits' : l.base seg + total seg objects < 2 ^ 16 = omega (arith, size, fits) in
      (
        (place_objects-within seg objects l.base j a above fits' e).0,
        (let within = (place_objects-within seg objects l.base k b above fits' e').1 in
            omega (arith, within, size)),
        elim (le_cases j k j-le) [
          | inl same ↦ inl same
          | inr less ↦ inr (place_objects-apart seg objects l.base j k a b above fits' less e e')
        ],
      )

  finish_bases-AreApart :
      (ldmode : Mode) (objects : List Object) (t : Table) (l : Layout)
      → l.size seg ≡ total seg objects
      → OnPlaced
          (λ result.
            result.0.base seg + result.0.size seg < 2 ^ 16 → AreApart seg result.0 result.1)
          (finish_bases ldmode objects t l)
  unfolding finish_bases
  finish_bases-AreApart ldmode objects t l size =
      either (not (is_rflag ldmode) && is_too_large l) (record { holds = tt })
        (record { holds = placed-AreApart objects l size })

  set_segment_bases-OnPlaced :
      (ldmode : Mode) (split_id : Bool) (letters : List ℕ) (objects : List Object) (l : Layout)
      (t : Table)
      → HaveWords objects
      → OnPlaced
          (λ result.
            result.0.base seg + result.0.size seg < 2 ^ 16 → AreApart seg result.0 result.1)
          (set_segment_bases ldmode split_id letters objects l t)
  unfolding set_segment_bases order_segments
  set_segment_bases-OnPlaced ldmode split_id letters objects l t words =
      let start : ℕ → ℕ = λ i. if i == 0 || leb oseg i then l.size i else 0 in
      let empty : start seg ≡ 0 = ground (arith, above, below) in
      bind-OnPlaced (λ size. size seg ≡ total seg objects) _
        (weaken-OnPlaced _ _
          (sum_sizes-total seg objects start above below (omega (arith, empty)) words)
          (λ size h. let e = h.0 in omega (arith, e, empty)))
        λ size total_size.
          bind-OnPlaced (λ l'. l'.size ≡ size) _
            (weaken-OnPlaced _ _
              (order_from-size letters none (split_data ldmode split_id (record l { size = size })))
              (λ l' e. e ∙ size-split_data ldmode split_id (record l { size = size })))
            λ l' e. finish_bases-AreApart ldmode objects t l' ((λ j. e j seg) ∙ total_size)

-- When set_segment_bases places the link without an error, then in every segment but the absolute one that ends
-- below the top of memory, each object lies within the segment, and of two objects the one that comes first in
-- the list ends where the other starts or before. The sizes in the objects' headers are words.
pub set_segment_bases-apart :
    (ldmode : Mode) (split_id : Bool) (letters : List ℕ) (objects objects' : List Object)
    (l l' : Layout) (t t' : Table) (seg j k : ℕ) (a b : Object)
    → HaveWords objects
    → set_segment_bases ldmode split_id letters objects l t ≡ placed (l', objects', t')
    → 1 ≤ seg
    → seg < oseg
    → l'.base seg + l'.size seg < 2 ^ 16
    → j ≤ k
    → get_elem? objects' j ≡ some a
    → get_elem? objects' k ≡ some b
    → (l'.base seg ≤ a.base seg)
      × (b.base seg + b.o_size seg ≤ l'.base seg + l'.size seg)
      × ((j ≡ k) ⊎ (a.base seg + a.o_size seg ≤ b.base seg))
set_segment_bases-apart ldmode split_id letters objects objects' l l' t t' seg j k a b words e above
      below fits =
    subst
      (λ (r : Result (Layout × List Object × Table)).
        Holds
          (λ result.
            result.0.base seg + result.0.size seg < 2 ^ 16 → AreApart seg result.0 result.1)
          r)
      e (set_segment_bases-OnPlaced seg above below ldmode split_id letters objects l t words).holds
      fits j k a b
