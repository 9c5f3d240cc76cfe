-- ===== src/Linker/Fuel.antt =====
-- The loop over a segment's stream ends within the rounds that it is given. Code: cmds/bintools/ld.c
-- (relocate_stream).
use fuzemsys.Base.{ℕ, zero, suc, ◌≤◌, ◌<◌, ◌≡◌, ◌⊎◌, refl, List, [], ◌∷◌, length, arith, inl, inr}
use fuzemsys.Linker.{Context, Linker, Outcome, done, exit, Link, ◌>>=◌, pure, error}
use fuzemsys.Linker.Relocate.{
  Round, go_on, at_eof, Ending, ended, out_of_rounds, relocate_rounds, relocate_stream,
}
use fuzemsys.Linker.Shrinks.{Within}
use fuzemsys.Linker.Shrinks.Records.{relocate_byte-Shrinks}

List-cases : {A : Type 0} (l : List A) → (l ≡ []) ⊎ ((x : A) × (xs : List A) × (l ≡ x ∷ xs))
List-cases [] = inl refl
List-cases (x ∷ xs) = inr (x, xs, refl)

-- The loop has met the end of the segment, or has exited.
abbrev pub HasEnded : Outcome Ending → Type 0
HasEnded (done ended s) = Unit
HasEnded (done out_of_rounds s) = ⊥
HasEnded (exit c s) = Unit

module _ (o : Context) where
  module _ (segment : ℕ) where
    round_same :
        (fuel fuel' n : ℕ) (r : Outcome Round)
        → Within n r
        → ((s : Linker)
            → length s.input ≤ n
            → relocate_rounds o fuel segment s ≡ relocate_rounds o fuel' segment s)
        → Path
            (Outcome Ending)
            (elim r [
              | done a s ↦
                  (elim a as (λ _. Link Ending) [
                    | at_eof ↦ pure ended
                    | go_on ↦ relocate_rounds o fuel segment
                  ])
                    s
              | exit c s ↦ exit c s
            ])
            (elim r [
              | done a s ↦
                  (elim a as (λ _. Link Ending) [
                    | at_eof ↦ pure ended
                    | go_on ↦ relocate_rounds o fuel' segment
                  ])
                    s
              | exit c s ↦ exit c s
            ])
    round_same fuel fuel' n (done go_on s) h same = same s h
    round_same fuel fuel' n (done at_eof s) h same = refl
    round_same fuel fuel' n (exit c s) h same = refl

    rounds_same :
        (fuel fuel' : ℕ) (s : Linker)
        → length s.input < fuel
        → length s.input < fuel'
        → relocate_rounds o fuel segment s ≡ relocate_rounds o fuel' segment s
    unfolding relocate_rounds ◌>>=◌
    rounds_same zero fuel' s h h' = absurd (omega (arith, h))
    rounds_same (suc fuel) zero s h h' = absurd (omega (arith, h'))
    rounds_same (suc fuel) (suc fuel') s h h' = elim (List-cases s.input) [
      | inl e ↦ rw e refl
      | inr (b, rest, e) ↦
          let shorter : length s.input ≡ suc (length rest) = rw e refl in
          rw e (
            round_same fuel fuel' (length rest) _
              ((relocate_byte-Shrinks o segment b).runs (record s { input = rest }))
              (λ t le.
                rounds_same fuel fuel' t (omega (arith, le, h, shorter))
                  (omega (arith, le, h', shorter))))
    ]

    round_ends :
        (fuel n : ℕ) (r : Outcome Round)
        → Within n r
        → ((s : Linker) → length s.input ≤ n → HasEnded (relocate_rounds o fuel segment s))
        → HasEnded (elim r [
          | done a s ↦
              (elim a as (λ _. Link Ending) [
                | at_eof ↦ pure ended
                | go_on ↦ relocate_rounds o fuel segment
              ])
                s
          | exit c s ↦ exit c s
        ])
    unfolding pure
    round_ends fuel n (done go_on s) h ends = ends s h
    round_ends fuel n (done at_eof s) h ends = tt
    round_ends fuel n (exit c s) h ends = tt

    rounds_end :
        (fuel : ℕ) (s : Linker)
        → length s.input < fuel
        → HasEnded (relocate_rounds o fuel segment s)
    unfolding relocate_rounds ◌>>=◌ error
    rounds_end zero s h = absurd (omega (arith, h))
    rounds_end (suc fuel) s h = elim (List-cases s.input) [
      | inl e ↦ rw e tt
      | inr (b, rest, e) ↦
          let shorter : length s.input ≡ suc (length rest) = rw e refl in
          rw e (
            round_ends fuel (length rest) _
              ((relocate_byte-Shrinks o segment b).runs (record s { input = rest }))
              (λ t le. rounds_end fuel t (omega (arith, le, h, shorter))))
    ]

-- Given more rounds than there are bytes left, the loop meets the end of the segment or exits before the
-- rounds are used up, and does what relocate_stream does.
pub relocate_rounds-enough :
    (o : Context) (segment fuel : ℕ) (s : Linker)
    → length s.input < fuel
    → HasEnded (relocate_rounds o fuel segment s)
      × (relocate_rounds o fuel segment s ≡ relocate_stream o segment s)
unfolding relocate_stream
relocate_rounds-enough o segment fuel s h = (
  rounds_end o segment fuel s h,
  rounds_same o segment fuel (suc (length s.input)) s h (omega arith),
)
