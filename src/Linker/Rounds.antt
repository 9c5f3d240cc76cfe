-- ===== src/Linker/Rounds.antt =====
-- The loop over a segment's stream as a sequence of rounds. Code: cmds/bintools/ld.c (relocate_stream).
use fuzemsys.Base.{
  ℕ, suc, ◌+◌, ◌-◌, ◌≤◌, ◌≡◌, refl, ap, ◌∙◌, List, [], ◌∷◌, ◌++◌, length, length-append, arith,
}
use mathlib.Core.List.{append_assoc}
use fuzemsys.ObjectFile.{rel_esc, rel_eof}
use fuzemsys.Linker.{Context, Linker, done, Link, ◌>>=◌, pure, io_readb}
use fuzemsys.Linker.Relocate.{
  Round, go_on, at_eof, Ending, ended, relocate_byte, relocate_escaped, relocate_rounds,
  relocate_stream,
}
use fuzemsys.Linker.Takes.{Moved, Moved-trans, Takes, bind-done}

module _ (o : Context) (segment : ℕ) where
  -- Some rounds take the bytes `bs`, put `ws` and move the position by `n`.
  pub record Rounds (bs ws : List ℕ) (n : ℕ) : Type 0 where
    pub runs :
        (rest : List ℕ) (s : Linker)
        → s.input ≡ bs ++ rest
        → (k : ℕ) × (s' : Linker) × (k ≤ length bs)
          × ((fuel all : ℕ)
              → all ≡ k + fuel
              → relocate_rounds o all segment s ≡ relocate_rounds o fuel segment s')
          × Moved rest ws n s s'

  round_step :
      (fuel : ℕ) {b : ℕ} {rest : List ℕ} (s : Linker) {s' : Linker} {round : Round}
      → s.input ≡ b ∷ rest
      → relocate_byte o segment b (record s { input = rest }) ≡ done round s'
      → relocate_rounds o (suc fuel) segment s
        ≡ (elim round as (λ _. Link Ending) [
          | at_eof ↦ pure ended
          | go_on ↦ relocate_rounds o fuel segment
        ])
            s'
  unfolding relocate_rounds
  round_step fuel {b} s e e' = rw e (bind-done (relocate_byte o segment b) _ e')

  -- The read of the first byte, out of the round.
  byte_read :
      {b : ℕ} {rest : List ℕ} {round : Round} (s : Linker) {s' : Linker}
      → s.input ≡ b ∷ rest
      → (io_readb rel_esc >>= λ c. relocate_byte o segment c) s ≡ done round s'
      → relocate_byte o segment b (record s { input = rest }) ≡ done round s'
  unfolding io_readb ◌>>=◌
  byte_read s e e' = rw e at e'

  pub one-Rounds :
      (b : ℕ) (bs ws : List ℕ) (n : ℕ)
      → Takes (b ∷ bs) ws n (io_readb rel_esc >>= λ c. relocate_byte o segment c) go_on
      → Rounds (b ∷ bs) ws n
  one-Rounds b bs ws n h = record {
    runs = λ rest s e.
        let (s', e', moved) = h.runs rest s e in
        (
          1,
          s',
          omega arith,
          (λ fuel all is.
              ap (λ (f : ℕ). relocate_rounds o f segment s) (omega (arith, is))
              ∙ round_step fuel s e (byte_read s e e')),
          moved,
        );
  }

  pub nil-Rounds : Rounds [] [] 0
  nil-Rounds = record {
    runs = λ rest s e. (
      0,
      s,
      omega arith,
      (λ fuel all is. ap (λ (f : ℕ). relocate_rounds o f segment s) (omega (arith, is))),
      record { left = e; wrote = refl; position = omega arith; quiet = refl },
    );
  }

  pub append-Rounds :
      (bs ws : List ℕ) (n : ℕ) (bs' ws' : List ℕ) (n' : ℕ)
      → Rounds bs ws n
      → Rounds bs' ws' n'
      → Rounds (bs ++ bs') (ws ++ ws') (n + n')
  append-Rounds bs ws n bs' ws' n' h h' = record {
    runs = λ rest s e.
        let (k, t, le, run, moved) = h.runs (bs' ++ rest) s (e ∙ append_assoc bs bs' rest) in
        let (k', u, le', run', moved') = h'.runs rest t moved.left in
        (
          k + k',
          u,
          (let p = length-append bs bs' in omega (arith, le, le', p)),
          (λ fuel all is. run (k' + fuel) all (omega (arith, is)) ∙ run' fuel (k' + fuel) refl),
          Moved-trans moved moved',
        );
  }

  eof_lem :
      (t : Linker)
      → relocate_byte o segment rel_esc (record t { input = rel_eof ∷ [] })
        ≡ done at_eof (record t { input = [] })
  unfolding relocate_byte relocate_escaped io_readb pure ◌>>=◌
  eof_lem t = refl

  -- A stream that ends with REL_EOF: the loop ends there.
  pub stream_lem :
      (bs ws : List ℕ) (n : ℕ) (s : Linker)
      → Rounds bs ws n
      → s.input ≡ bs ++ (rel_esc ∷ rel_eof ∷ [])
      → (s' : Linker) × (relocate_stream o segment s ≡ done ended s') × Moved [] ws n s s'
  unfolding relocate_stream pure
  stream_lem bs ws n s h e =
      let (k, t, le, run, moved) = h.runs (rel_esc ∷ rel_eof ∷ []) s e in
      let fuel = length bs + 2 - k in
      let enough : suc (length s.input) ≡ k + suc fuel =
        (ap (λ (l : List ℕ). suc (length l)) e
          ∙ ap (λ (l : ℕ). suc l) (length-append bs (rel_esc ∷ rel_eof ∷ [])))
        ∙ omega (arith, le) in
      (
        record t { input = [] },
        run (suc fuel) _ enough ∙ round_step fuel t moved.left (eof_lem t),
        record { left = refl; wrote = moved.wrote; position = moved.position; quiet = moved.quiet },
      )
