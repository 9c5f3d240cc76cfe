-- ===== src/Linker/Order.antt =====
-- A symbol that one object refers to and another defines. Code: cmds/bintools/ld.c (find_alloc_symbol,
-- segment_mismatch).
use fuzemsys.Base.{
  ℕ, ◌<◌, bit_and, bit_or, ◌≡◌, refl, ◌∙◌, Bool, true, false, ◌&&◌, not, Option, none, some, ◌==◌,
  all_below, all_below_sound, Bool-cases, inl, inr, arith,
}
use fuzemsys.Base.Bits.{bit_and_mask}
use fuzemsys.ObjectFile.{s_any}
use fuzemsys.Linker.Table.{
  Name, Entry, Table, coerce_segment, define, find_alloc_symbol, segment_of, is_unknown,
}
use fuzemsys.Linker.Lookup.{lookup, resolved, lookup-find_alloc_symbol, same_name_refl}

-- The symbol is known, with this value, segment and object.
pub record IsDefined (o : Option ℕ) (type value : ℕ) (s : Entry) : Type 0 where
  pub defined : is_unknown s.type ≡ false
  pub has_value : s.value ≡ value
  pub has_segment : segment_of s.type ≡ segment_of type
  pub has_object : s.definedby ≡ o

-- The type that is left where a definition meets a reference.
abbrev taken : ℕ → ℕ → ℕ
taken r g = bit_and (bit_or (bit_and r 0xf0) g) 0x7f

abbrev is_taken : ℕ → ℕ → Bool
is_taken r g = segment_of (taken r g) == g && not (is_unknown (taken r g))

false_by_not : (b : Bool) → not b ≡ true → b ≡ false
false_by_not false h = refl
false_by_not true h = absurd (ground (arith, h))

both_true : (a b : Bool) → (a && b) ≡ true → (a ≡ true) × (b ≡ true)
both_true true b h = (refl, h)
both_true false b h = absurd (ground (arith, h))

test_both : (x y : ℕ) (b : Bool) → (x == y && not b) ≡ true → (x ≡ y) × (b ≡ false)
test_both x y b h =
    let (p, q) = both_true (x == y) (not b) h in (ground (arith, p), false_by_not b q)

taken_lem :
    (r g : ℕ) → r < 256 → g < 16 → (segment_of (taken r g) ≡ g) × (is_unknown (taken r g) ≡ false)
unfolding all_below
taken_lem r g r-lt g-lt = test_both (segment_of (taken r g)) g (is_unknown (taken r g)) (
    all_below_sound 16 (is_taken r) g
      (all_below_sound 256 (λ x. all_below 16 (is_taken x)) r refl r-lt) g-lt)

-- The same, where the definition has no segment either.
abbrev is_kept : ℕ → Bool
is_kept r = segment_of (bit_and r 0x7f) == segment_of r && not (is_unknown (bit_and r 0x7f))

kept_lem :
    (r : ℕ)
    → r < 256
    → (segment_of (bit_and r 0x7f) ≡ segment_of r) × (is_unknown (bit_and r 0x7f) ≡ false)
unfolding all_below
kept_lem r r-lt =
    test_both (segment_of (bit_and r 0x7f)) (segment_of r) (is_unknown (bit_and r 0x7f))
      (all_below_sound 256 is_kept r refl r-lt)

type-lt : (d : ℕ) → segment_of d < 16
type-lt d = let h = bit_and_mask 4 d in omega (arith, h)

module _ (o : Option ℕ) (d value : ℕ) (known : is_unknown d ≡ false) where
  -- A definition, where a reference was.
  define-IsDefined :
      (s : Entry)
      → s.type < 256
      → segment_of s.type ≡ s_any
      → IsDefined o d value (define o d value s)
  unfolding define coerce_segment
  define-IsDefined s small any =
      let (segment, defined) = taken_lem s.type (segment_of d) small (type-lt d) in
      let (segment', defined') = kept_lem s.type small in
      elim (Bool-cases (s_any == segment_of d)) [
        | inl e ↦
            rw (any, e)
              (record {
                defined = defined';
                has_value = refl;
                has_segment = segment' ∙ any ∙ ground (arith, e);
                has_object = refl;
              })
        | inr e ↦
            rw (any, e)
              (record {
                defined = defined;
                has_value = refl;
                has_segment = segment;
                has_object = refl;
              })
      ]

  -- A reference, where a definition was.
  coerce_segment-IsDefined :
      (s : Entry) (r : ℕ)
      → IsDefined o d value s
      → segment_of r ≡ s_any
      → IsDefined o d value (coerce_segment s r)
  unfolding coerce_segment
  coerce_segment-IsDefined s r is any =
      rw any (elim (Bool-cases (segment_of s.type == s_any)) [ inl h ↦ rw h is | inr h ↦ rw h is ])

-- For a symbol that the table does not have yet, a reference to it whose segment is S_ANY and a definition of
-- it in any segment leave, in either order, a symbol that is known, with the value, the segment and the object of the definition.
pub order_of_objects :
    (o p : Option ℕ) (r d : ℕ) (id : Name) (value w : ℕ) (t : Table)
    → lookup id t ≡ none
    → r < 256
    → is_unknown r ≡ true
    → segment_of r ≡ s_any
    → is_unknown d ≡ false
    → ((s : Entry) × (lookup id (find_alloc_symbol o d id value (find_alloc_symbol p r id w t))
          ≡ some s)
        × IsDefined o d value s)
      × ((s : Entry) × (lookup id (find_alloc_symbol p r id w (find_alloc_symbol o d id value t))
            ≡ some s)
          × IsDefined o d value s)
order_of_objects o p r d id value w t absent small unknown any known =
    let same = same_name_refl id in
    let referred : lookup id (find_alloc_symbol p r id w t) ≡ some (resolved p r id w none) =
      lookup-find_alloc_symbol p r id w id t ∙ rw (same, absent) refl in
    let defined : lookup id (find_alloc_symbol o d id value t) ≡ some (resolved o d id value none) =
      lookup-find_alloc_symbol o d id value id t ∙ rw (same, absent) refl in
    (
      (
        define o d value (resolved p r id w none),
        lookup-find_alloc_symbol o d id value id (find_alloc_symbol p r id w t)
            ∙ rw (same, referred, known, unknown) refl,
        define-IsDefined o d value known (resolved p r id w none) small any,
      ),
      (
        coerce_segment (resolved o d id value none) r,
        lookup-find_alloc_symbol p r id w id (find_alloc_symbol o d id value t)
            ∙ rw (same, defined, unknown) refl,
        coerce_segment-IsDefined o d value known (resolved o d id value none) r
            (record {
              defined = known;
              has_value = refl;
              has_segment = refl;
              has_object = rw known refl;
            })
            any,
      ),
    )
