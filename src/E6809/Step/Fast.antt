-- ===== src/E6809/Step/Fast.antt =====
-- The fast interrupt, and the return from it. Code: emulators/e6809.c (e6809_sstep, inst_pul, and the case of
-- rti).
use fuzemsys.Base.{
  bit_and, ℕ, ◌+◌, ◌-◌, ◌/◌, ◌^◌, ◌<◌, ◌≡◌, ◌≢◌, refl, ap, ◌∙◌, true, false, ◌==◌, arith,
}
use fuzemsys.Base.Bits.{u8, u16, u32, bit_or_low}
use fuzemsys.E6809.State.{
  Machine, Outcome, Void, Op, done, exit, modify, add_cycles, ◌>>=◌, ◌>>◌, final, to_s, load, store,
  flag_e, flag_f, flag_i, irq_normal, irq_cwai,
}
use fuzemsys.E6809.Bus.{e6809_read8, read8, read16, pull8, pull16}
use fuzemsys.E6809.Bus.Laws.{IsMemory}
use fuzemsys.E6809.Flags.{get_cc, set_cc}
use fuzemsys.E6809.Flags.Laws.{get_cc-set_cc}
use fuzemsys.E6809.Stack.{inst_psh, inst_pul}
use fuzemsys.E6809.Cases.Control.{rti}
use fuzemsys.E6809.Step.{firq}
use fuzemsys.E6809.Step.Frame.{
  others, general, framed, inst_psh-framed, reg_s-framed, others-framed, top-framed, high-framed,
  low-framed, kept-framed,
}

-- The rest of firq, after the frame.
abbrev entered : Machine → Machine
entered t =
    let t' = set_cc flag_f 1 (set_cc flag_i 1 t) in
    record t' {
      reg_pc = u16 (read16 0xfff6 t');
      irq_status = irq_normal;
      cycles = u32 (t'.cycles + 7);
    }

abbrev enter : Op Void
enter = do
  modify (set_cc flag_i 1)
  modify (set_cc flag_f 1)
  modify (λ s. record s { reg_pc = u16 (read16 0xfff6 s) })
  modify (λ s. record s { irq_status = irq_normal })
  add_cycles 7

enter-entered : (t : Machine) → enter t ≡ done tt (entered t)
unfolding ◌>>=◌
enter-entered t = refl

firq-entered :
    (s : Machine)
    → get_cc flag_f s ≡ 0
    → s.irq_status ≢ irq_cwai
    → inst_psh 0x81 to_s s.reg_u (set_cc flag_e 0 s) ≡ done tt (framed (set_cc flag_e 0 s))
    → firq s ≡ done tt (entered (framed (set_cc flag_e 0 s)))
unfolding firq ◌>>=◌ set_cc
firq-entered s clear running pushes =
    let is_clear : (get_cc flag_f s == 0) ≡ true = ground (arith, clear) in
    let not_waiting : (s.irq_status == irq_cwai) ≡ false = ground (arith, running) in
    rw (is_clear, not_waiting)
      (ap (λ (r : Outcome Void). elim r [ done a s' ↦ enter s' | exit c s' ↦ exit c s' ]) pushes
        ∙ enter-entered (framed (set_cc flag_e 0 s)))

-- rti with a short frame.
abbrev returned : Machine → Machine
returned t =
    let cc = read8 t.reg_s t in
    let t₁ = record t { reg_s = u32 (t.reg_s + 1); reg_cc = cc; cycles = u32 (t.cycles + 1) } in
    let word = pull16 to_s t₁ in
    let t₂ = word.1 in record t₂ { reg_pc = u16 word.0; cycles = u32 (u32 (t₂.cycles + 2) + 3) }

rti-returned : (t : Machine) → get_cc flag_e t ≡ 0 → rti t ≡ done tt (returned t)
unfolding rti inst_pul ◌>>=◌ pull8 load store
rti-returned t short =
    let is_short : (get_cc flag_e t == 0) ≡ true = ground (arith, short) in rw is_short refl

module _ (t : Machine) (sp pc cc : ℕ) (word : sp < 2 ^ 32) (at : t.reg_s ≡ u32 (sp + 2 ^ 32 - 3))
    (top : t.ram (u16 (sp + 2 ^ 32 - 3)) ≡ cc)
    (high : t.ram (u16 (sp + 2 ^ 32 - 2)) ≡ u8 (pc / 2 ^ 8))
    (low : t.ram (u16 (sp + 2 ^ 32 - 1)) ≡ u8 pc) where
  cc-returned : (returned t).reg_cc ≡ cc
  unfolding read8 e6809_read8 pull16 pull8 load store
  cc-returned = ap t.ram (omega (arith, at)) ∙ top

  reg_s-returned : (returned t).reg_s ≡ sp
  unfolding pull16 pull8 load store
  reg_s-returned = omega (arith, at, word)

  pc-returned : (returned t).reg_pc ≡ u16 pc
  unfolding read8 e6809_read8 pull16 pull8 load store
  pc-returned =
      let at_high : u16 (u16 (u32 (t.reg_s + 1))) ≡ u16 (sp + 2 ^ 32 - 2) = omega (arith, at) in
      let at_low : u16 (u16 (u32 (u32 (t.reg_s + 1) + 1))) ≡ u16 (sp + 2 ^ 32 - 1) =
        omega (arith, at) in
      let bytes = bit_or_low 8 (u8 (pc / 2 ^ 8)) (u8 pc) (omega arith) in
      rw (at_high, at_low, high, low, bytes) (omega arith)

module _ (f : Machine) where
  f-entered : get_cc flag_f (entered f) ≡ 1
  unfolding get_cc
  f-entered = get_cc-set_cc 6 6 1 (set_cc flag_i 1 f) (omega arith) (omega arith) (omega arith)

  i-entered : get_cc flag_i (entered f) ≡ 1
  unfolding get_cc
  i-entered =
      get_cc-set_cc 6 4 1 (set_cc flag_i 1 f) (omega arith) (omega arith) (omega arith)
      ∙ get_cc-set_cc 4 4 1 f (omega arith) (omega arith) (omega arith)

  e-entered : get_cc flag_e (entered f) ≡ get_cc flag_e f
  unfolding get_cc
  e-entered =
      get_cc-set_cc 6 7 1 (set_cc flag_i 1 f) (omega arith) (omega arith) (omega arith)
      ∙ get_cc-set_cc 4 7 1 f (omega arith) (omega arith) (omega arith)

  pc-entered : (entered f).reg_pc ≡ u16 (read16 0xfff6 (entered f))
  unfolding read16 read8 e6809_read8 set_cc
  pc-entered = refl

short_frame :
    (s f : Machine) → others f ≡ others (set_cc flag_e 0 s) → get_cc flag_e (entered f) ≡ 0
unfolding get_cc
short_frame s f same =
    e-entered f
    ∙ ap (λ (o : ℕ × ℕ × ℕ × ℕ × ℕ × ℕ × ℕ × ℕ). bit_and (o.7 / flag_e) 1) same
    ∙ get_cc-set_cc 7 7 0 s (omega arith) (omega arith) (omega arith)

general-returned : (t : Machine) → general (returned t) ≡ general t
unfolding pull16 pull8 load store
general-returned t = refl

-- When F is clear and the processor does not wait after cwai, and the three addresses below a 32-bit
-- stack pointer, modulo 2 ^ 16, are none of the four that print or exit, firq ends at the address that
-- stands at 0xfff6 when it ends, with F and I set and no wait, and changes the memory at those three
-- addresses only; rti then ends with the stack pointer and the registers X, Y, U, A, B and DP as they
-- were before firq, the program counter as it was modulo 2 ^ 16, and the low byte of the condition
-- codes as it was but with E clear.
pub rti-firq :
    (s : Machine)
    → s.reg_s < 2 ^ 32
    → IsMemory (u16 (s.reg_s + 2 ^ 32 - 1))
    → IsMemory (u16 (s.reg_s + 2 ^ 32 - 2))
    → IsMemory (u16 (s.reg_s + 2 ^ 32 - 3))
    → get_cc flag_f s ≡ 0
    → s.irq_status ≢ irq_cwai
    → let t = final (firq s) in
      let r = final (rti t) in
      (firq s ≡ done tt t)
      × (t.reg_pc ≡ u16 (read16 0xfff6 t))
      × (get_cc flag_f t ≡ 1)
      × (get_cc flag_i t ≡ 1)
      × (t.irq_status ≡ irq_normal)
      × (rti t ≡ done tt r)
      × (r.reg_s ≡ s.reg_s)
      × (r.reg_pc ≡ u16 s.reg_pc)
      × (r.reg_cc ≡ u8 (set_cc flag_e 0 s).reg_cc)
      × (general r ≡ general s)
      × ((a : ℕ)
          → a ≢ u16 (s.reg_s + 2 ^ 32 - 1)
          → a ≢ u16 (s.reg_s + 2 ^ 32 - 2)
          → a ≢ u16 (s.reg_s + 2 ^ 32 - 3)
          → t.ram a ≡ s.ram a)
unfolding set_cc
rti-firq s word m₁ m₂ m₃ clear running =
    let s₀ = set_cc flag_e 0 s in
    let f = framed s₀ in
    let t = entered f in
    let ends = firq-entered s clear running (inst_psh-framed s₀ word m₁ m₂ m₃ s.reg_u) in
    let same = others-framed s₀ word m₁ m₂ m₃ in
    let back = rti-returned t (short_frame s f same) in
    let at = reg_s-framed s₀ word m₁ m₂ m₃ in
    let top = top-framed s₀ word m₁ m₂ m₃ in
    let high = high-framed s₀ word m₁ m₂ m₃ in
    let low = low-framed s₀ word m₁ m₂ m₃ in
    rw ends (
      rw back (
        refl,
        pc-entered f,
        f-entered f,
        i-entered f,
        refl,
        refl,
        reg_s-returned t s.reg_s s.reg_pc (u8 s₀.reg_cc) word at top high low,
        pc-returned t s.reg_s s.reg_pc (u8 s₀.reg_cc) word at top high low,
        cc-returned t s.reg_s s.reg_pc (u8 s₀.reg_cc) word at top high low,
        general-returned t
            ∙ ap (λ (o : ℕ × ℕ × ℕ × ℕ × ℕ × ℕ × ℕ × ℕ). (o.0, o.1, o.2, o.3, o.4, o.5)) same,
        kept-framed s₀ word m₁ m₂ m₃,
      ))
