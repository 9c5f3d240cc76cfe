-- ===== src/E6809/Step/Frame.antt =====
-- The short frame: the program counter and the condition codes on the stack. Code: emulators/e6809.c
-- (inst_psh with 0x81).
use fuzemsys.Base.{
  ℕ, ◌+◌, ◌-◌, ◌/◌, ◌^◌, ◌<◌, ◌≡◌, ◌≢◌, refl, sym, ap, ◌∙◌, false, ◌==◌, arith, Bool-cases, inl,
  inr,
}
use mathlib.Core.Path.{subst}
use fuzemsys.Base.Bits.{u8, u16, u32}
use fuzemsys.Breakpoints.{is_breakpoint, brk_write}
use fuzemsys.E6809.State.{
  Machine, Outcome, Void, Op, done, exit, add_cycles, ◌>>=◌, to_s, load, store,
}
use fuzemsys.E6809.Bus.{update, note_write, push8, push16}
use fuzemsys.E6809.Bus.Laws.{
  IsMemory, pushed, twice, once, first, second, load-note_write, ram-note_write, load-pushed,
  ram-pushed, push8_lem, load-twice, ram-twice, push16-twice, bind-done,
}
use fuzemsys.E6809.Stack.{inst_psh}

-- The registers but S, with the program counter and the condition codes.
abbrev pub others : Machine → ℕ × ℕ × ℕ × ℕ × ℕ × ℕ × ℕ × ℕ
others s = (s.reg_x, s.reg_y, s.reg_u, s.reg_a, s.reg_b, s.reg_dp, s.reg_pc, s.reg_cc)

-- Those that an interrupt does not change.
abbrev pub general : Machine → ℕ × ℕ × ℕ × ℕ × ℕ × ℕ
general s = (s.reg_x, s.reg_y, s.reg_u, s.reg_a, s.reg_b, s.reg_dp)

others-note_write : (a : ℕ) (s : Machine) → others (note_write a s) ≡ others s
unfolding note_write
others-note_write a s = elim (Bool-cases (is_breakpoint a brk_write s.mon).0) [
  | inl hit ↦ rw hit refl
  | inr none_here ↦ rw none_here refl
]

others-pushed : (v : ℕ) (s : Machine) → others (pushed to_s v s) ≡ others s
unfolding pushed load store
others-pushed v s = refl

others-twice : (v : ℕ) (s : Machine) → others (twice to_s v s) ≡ others s
unfolding twice once
others-twice v s =
    others-note_write _ _ ∙ others-pushed _ _ ∙ others-note_write _ _ ∙ others-pushed v s

-- Three bytes below a stack pointer.
abbrev pub third : Machine → ℕ
third s = u16 (s.reg_s + 2 ^ 32 - 3)

-- The machine when the program counter and the condition codes are on the stack.
after_pc : Machine → Machine
after_pc s = let t = twice to_s s.reg_pc s in record t { cycles = u32 (t.cycles + 2) }

pub framed : Machine → Machine
framed s =
    let t = note_write (third s) (pushed to_s (after_pc s).reg_cc (after_pc s)) in
    record t { cycles = u32 (t.cycles + 1) }

module _ (s : Machine) (word : s.reg_s < 2 ^ 32) (m₁ : IsMemory (u16 (s.reg_s + 2 ^ 32 - 1)))
    (m₂ : IsMemory (u16 (s.reg_s + 2 ^ 32 - 2))) (m₃ : IsMemory (third s)) where
  reg_s-after_pc : (after_pc s).reg_s ≡ u32 (s.reg_s + 2 ^ 32 - 2)
  unfolding after_pc load
  reg_s-after_pc = load-twice to_s s.reg_pc s word

  at_third : u16 (u32 ((after_pc s).reg_s + 2 ^ 32 - 1)) ≡ third s
  at_third = let e = reg_s-after_pc in omega (arith, e)

  push8-framed :
      push8 to_s (after_pc s).reg_cc (after_pc s)
      ≡ done tt (note_write (third s) (pushed to_s (after_pc s).reg_cc (after_pc s)))
  unfolding load
  push8-framed =
      push8_lem to_s (after_pc s).reg_cc (after_pc s) (subst IsMemory (sym at_third) m₃)
      ∙ ap (λ (a : ℕ). done tt (note_write a (pushed to_s (after_pc s).reg_cc (after_pc s))))
          at_third

  pub inst_psh-framed : (word' : ℕ) → inst_psh 0x81 to_s word' s ≡ done tt (framed s)
  unfolding inst_psh ◌>>=◌ after_pc framed load
  inst_psh-framed word' =
      ap (λ (r : Outcome Void). elim r [ done a s' ↦ rest s' | exit c s' ↦ exit c s' ])
        (bind-done (push16 to_s s.reg_pc) (λ _. add_cycles 2)
          (push16-twice to_s s.reg_pc s word m₁ m₂))
      ∙ bind-done (push8 to_s (after_pc s).reg_cc) (λ _. add_cycles 1) push8-framed
    where
      rest : Op Void
      rest s' = (push8 to_s s'.reg_cc >>= λ _. add_cycles 1) s'

  pub reg_s-framed : (framed s).reg_s ≡ u32 (s.reg_s + 2 ^ 32 - 3)
  unfolding framed load
  reg_s-framed =
      let e = reg_s-after_pc in
      load-note_write to_s _ _ ∙ load-pushed to_s _ (after_pc s) ∙ omega (arith, e)

  ram-framed :
      (framed s).ram
      ≡ update
          (update
            (update s.ram (first to_s 0 s) (u8 s.reg_pc))
            (second to_s 0 s)
            (u8 (s.reg_pc / 2 ^ 8)))
          (third s)
          (u8 s.reg_cc)
  unfolding framed load after_pc
  ram-framed =
      let cc = ap (λ (o : ℕ × ℕ × ℕ × ℕ × ℕ × ℕ × ℕ × ℕ). o.7) (others-twice s.reg_pc s) in
      ram-note_write (third s) _
      ∙ ram-pushed to_s _ (after_pc s)
      ∙ (λ i. update (ram-twice to_s s.reg_pc s word i) (at_third i) (u8 (cc i)))

  pub others-framed : others (framed s) ≡ others s
  unfolding framed after_pc
  others-framed = others-note_write _ _ ∙ others-pushed _ (after_pc s) ∙ others-twice s.reg_pc s

  pub top-framed : (framed s).ram (u16 (s.reg_s + 2 ^ 32 - 3)) ≡ u8 s.reg_cc
  unfolding load
  top-framed = (λ i. ram-framed i (third s)) ∙ ground arith

  pub high-framed : (framed s).ram (u16 (s.reg_s + 2 ^ 32 - 2)) ≡ u8 (s.reg_pc / 2 ^ 8)
  unfolding load
  high-framed =
      let apart : (u16 (s.reg_s + 2 ^ 32 - 2) == u16 (s.reg_s + 2 ^ 32 - 3)) ≡ false =
        ground arith in
      (λ i. ram-framed i (u16 (s.reg_s + 2 ^ 32 - 2))) ∙ ground (arith, apart)

  pub low-framed : (framed s).ram (u16 (s.reg_s + 2 ^ 32 - 1)) ≡ u8 s.reg_pc
  unfolding load
  low-framed =
      let apart : (u16 (s.reg_s + 2 ^ 32 - 1) == u16 (s.reg_s + 2 ^ 32 - 3)) ≡ false =
        ground arith in
      let apart' : (u16 (s.reg_s + 2 ^ 32 - 1) == u16 (s.reg_s + 2 ^ 32 - 2)) ≡ false =
        ground arith in
      (λ i. ram-framed i (u16 (s.reg_s + 2 ^ 32 - 1))) ∙ ground (arith, apart, apart')

  pub kept-framed :
      (a : ℕ)
      → a ≢ u16 (s.reg_s + 2 ^ 32 - 1)
      → a ≢ u16 (s.reg_s + 2 ^ 32 - 2)
      → a ≢ u16 (s.reg_s + 2 ^ 32 - 3)
      → (framed s).ram a ≡ s.ram a
  unfolding load
  kept-framed a q q' q'' = (λ i. ram-framed i a) ∙ ground (arith, q, q', q'')
