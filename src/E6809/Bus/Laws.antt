-- ===== src/E6809/Bus/Laws.antt =====
-- Pushes and pulls on a stack in memory. Code: emulators/e6809.c (push8, pull8, push16, pull16, write8),
-- emulators/emu6809.c (e6809_read8, e6809_write8).
use fuzemsys.Base.{
  ◌⊎◌, inl, inr, sym, ℕ, ◌+◌, ◌-◌, ◌*◌, ◌/◌, ◌^◌, ◌<◌, bit_or, ◌≡◌, refl, ◌≢◌, ap, ◌∙◌, ◌==◌, arith,
  false,
}
use mathlib.Core.Path.{subst}
use fuzemsys.Base.Bits.{u8, u16, u32, bit_or_low}
use fuzemsys.E6809.State.{
  Machine, Op, modify, done, exit, ◌>>=◌, final, Pointer, to_x, to_y, to_u, to_s, load, store,
}
use fuzemsys.E6809.Bus.{
  e6809_read8, update, e6809_write8, read8, note_write, write8, push8, pull8, push16, pull16,
}

-- An address that is memory: a word that is not one of the four that print or exit.
abbrev pub IsMemory : ℕ → Type 0
IsMemory a = (a < 0xfefc) ⊎ ((0xfeff < a) × (a < 2 ^ 16))

-- The machine after a push, before write8 asks for a write breakpoint.
unfoldable pub pushed : Pointer → ℕ → Machine → Machine
pushed p v s =
    let sp = u32 (load p s + 2 ^ 32 - 1) in
    let s' = store p sp s in record s' { ram = update s'.ram (u16 sp) (u8 v) }

memory_write :
    (a v : ℕ) (s : Machine)
    → IsMemory a
    → e6809_write8 a v s ≡ done tt (record s { ram = update s.ram a v })
unfolding e6809_write8
memory_write a v s h = elim h [
  | inl low ↦
      let not_exit : (a == 0xfeff) ≡ false = ground (arith, low) in
      let not_char : (a == 0xfefe) ≡ false = ground (arith, low) in
      let not_low : (a == 0xfefd) ≡ false = ground (arith, low) in
      let not_high : (a == 0xfefc) ≡ false = ground (arith, low) in
      let plain : u16 a ≡ a = omega (arith, low) in
      rw (not_exit, not_char, not_low, not_high, plain) refl
  | inr (above, word) ↦
      let not_exit : (a == 0xfeff) ≡ false = ground (arith, above) in
      let not_char : (a == 0xfefe) ≡ false = ground (arith, above) in
      let not_low : (a == 0xfefd) ≡ false = ground (arith, above) in
      let not_high : (a == 0xfefc) ≡ false = ground (arith, above) in
      let plain : u16 a ≡ a = omega (arith, word) in
      rw (not_exit, not_char, not_low, not_high, plain) refl
]

load-store : (p : Pointer) (v : ℕ) (s : Machine) → load p (store p v s) ≡ v
unfolding load store
load-store to_x v s = refl
load-store to_y v s = refl
load-store to_u v s = refl
load-store to_s v s = refl

pub load-note_write : (p : Pointer) (a : ℕ) (s : Machine) → load p (note_write a s) ≡ load p s
unfolding load note_write
load-note_write to_x a s = ground arith
load-note_write to_y a s = ground arith
load-note_write to_u a s = ground arith
load-note_write to_s a s = ground arith

pub ram-note_write : (a : ℕ) (s : Machine) → (note_write a s).ram ≡ s.ram
unfolding note_write
ram-note_write a s = ground arith

pub load-pushed :
    (p : Pointer) (v : ℕ) (s : Machine) → load p (pushed p v s) ≡ u32 (load p s + 2 ^ 32 - 1)
unfolding load store pushed
load-pushed to_x v s = refl
load-pushed to_y v s = refl
load-pushed to_u v s = refl
load-pushed to_s v s = refl

pub ram-pushed :
    (p : Pointer) (v : ℕ) (s : Machine)
    → (pushed p v s).ram ≡ update s.ram (u16 (u32 (load p s + 2 ^ 32 - 1))) (u8 v)
unfolding store pushed
ram-pushed to_x v s = refl
ram-pushed to_y v s = refl
ram-pushed to_u v s = refl
ram-pushed to_s v s = refl

ram-store : (p : Pointer) (v : ℕ) (s : Machine) → (store p v s).ram ≡ s.ram
unfolding store
ram-store to_x v s = refl
ram-store to_y v s = refl
ram-store to_u v s = refl
ram-store to_s v s = refl

pub bind-done :
    {A B : Type 0} (m : Op A) (f : A → Op B) {s s' : Machine} {a : A}
    → m s ≡ done a s'
    → (m >>= f) s ≡ f a s'
unfolding ◌>>=◌
bind-done m f e = λ j. elim (e j) [ done a s' ↦ f a s' | exit c s' ↦ exit c s' ]

write8_lem :
    (a v : ℕ) (s : Machine)
    → IsMemory (u16 a)
    → write8 a v s ≡ done tt (note_write (u16 a) (record s { ram = update s.ram (u16 a) (u8 v) }))
unfolding write8 modify
write8_lem a v s h = bind-done _ _ (memory_write (u16 a) (u8 v) s h)

pub push8_lem :
    (p : Pointer) (v : ℕ) (s : Machine)
    → IsMemory (u16 (u32 (load p s + 2 ^ 32 - 1)))
    → push8 p v s ≡ done tt (note_write (u16 (u32 (load p s + 2 ^ 32 - 1))) (pushed p v s))
unfolding push8 ◌>>=◌ pushed
push8_lem p v s h =
    let sp = u32 (load p s + 2 ^ 32 - 1) in
    ap (λ (a : ℕ). write8 a v (store p sp s)) (load-store p sp s) ∙ write8_lem sp v (store p sp s) h

-- The same, at an address that is known by another name.
module _ (p : Pointer) (v a : ℕ) (s : Machine) (same : u16 (u32 (load p s + 2 ^ 32 - 1)) ≡ a) where
  push8-at : IsMemory a → push8 p v s ≡ done tt (note_write a (pushed p v s))
  push8-at h =
      push8_lem p v s (subst IsMemory (sym same) h)
      ∙ ap (λ (q : ℕ). done tt (note_write q (pushed p v s))) same

  ram-pushed-at : (pushed p v s).ram ≡ update s.ram a (u8 v)
  ram-pushed-at = ram-pushed p v s ∙ ap (λ (q : ℕ). update s.ram q (u8 v)) same

-- The machine after two pushes.
module _ (p : Pointer) (v : ℕ) (s : Machine) where
  abbrev pub first : ℕ
  first = u16 (load p s + 2 ^ 32 - 1)

  abbrev pub second : ℕ
  second = u16 (load p s + 2 ^ 32 - 2)

  unfoldable pub once : Machine
  once = note_write first (pushed p v s)

  unfoldable pub twice : Machine
  twice = note_write second (pushed p (v / 2 ^ 8) once)

  load-once : load p once ≡ u32 (load p s + 2 ^ 32 - 1)
  unfolding once
  load-once = load-note_write p first (pushed p v s) ∙ load-pushed p v s

  module _ (word : load p s < 2 ^ 32) where
    at_second : u16 (u32 (load p once + 2 ^ 32 - 1)) ≡ second
    at_second = rw load-once (omega arith)

    pub load-twice : load p twice ≡ u32 (load p s + 2 ^ 32 - 2)
    unfolding twice
    load-twice =
        load-note_write p second (pushed p (v / 2 ^ 8) once)
        ∙ load-pushed p (v / 2 ^ 8) once
        ∙ rw load-once (omega arith)

    pub ram-twice : twice.ram ≡ update (update s.ram first (u8 v)) second (u8 (v / 2 ^ 8))
    unfolding once twice
    ram-twice =
        ram-note_write second (pushed p (v / 2 ^ 8) once)
        ∙ ram-pushed-at p (v / 2 ^ 8) second once at_second
        ∙ ap (λ (f : ℕ → ℕ). update f second (u8 (v / 2 ^ 8)))
            (ram-note_write first (pushed p v s) ∙ ram-pushed-at p v first s (omega arith))

    pub push16-twice : IsMemory first → IsMemory second → push16 p v s ≡ done tt twice
    unfolding push16 once twice
    push16-twice h h' =
        bind-done _ _ (push8-at p v first s (omega arith) h)
        ∙ push8-at p (v / 2 ^ 8) second once at_second h'

    read8-twice : (a : ℕ) → read8 a twice ≡ twice.ram (u16 a)
    unfolding read8 e6809_read8
    read8-twice a = ap twice.ram (omega arith)

    high_byte : read8 (load p twice) twice ≡ u8 (v / 2 ^ 8)
    high_byte = read8-twice (load p twice) ∙ (λ j. ram-twice j (u16 (load-twice j))) ∙ ground arith

    low_byte : read8 (u32 (load p twice + 1)) twice ≡ u8 v
    low_byte =
        read8-twice (u32 (load p twice + 1))
        ∙ (λ j. ram-twice j (u16 (u32 (load-twice j + 1))))
        ∙ ground arith

read8-store : (p : Pointer) (w a : ℕ) (s : Machine) → read8 a (store p w s) ≡ read8 a s
unfolding read8 e6809_read8
read8-store p w a s = ap (λ (f : ℕ → ℕ). f (u16 (u16 a))) (ram-store p w s)

pull16_lem :
    (p : Pointer) (s : Machine)
    → ((pull16 p s).0 ≡ u32 (bit_or (read8 (load p s) s * 2 ^ 8) (read8 (u32 (load p s + 1)) s)))
      × (load p (pull16 p s).1 ≡ u32 (load p s + 2))
unfolding pull16 pull8
pull16_lem p s =
    let next = u32 (load p s + 1) in
    let at_next = load-store p next s in
    (rw (at_next, read8-store p next next s) refl, load-store p _ _ ∙ rw at_next (omega arith))

-- A word that is pushed on either stack through a 32-bit pointer is pulled again: when the two
-- addresses below the pointer are memory, push16 ends, writes those two addresses only, and pull16 then
-- gives the low 16 bits of the word and puts the pointer back.
pub pull16-push16 :
    (p : Pointer) (v : ℕ) (s : Machine)
    → load p s < 2 ^ 32
    → IsMemory (u16 (load p s + 2 ^ 32 - 1))
    → IsMemory (u16 (load p s + 2 ^ 32 - 2))
    → let t = final (push16 p v s) in
      (push16 p v s ≡ done tt t)
      × ((pull16 p t).0 ≡ u16 v)
      × (load p (pull16 p t).1 ≡ load p s)
      × ((a : ℕ)
          → a ≢ u16 (load p s + 2 ^ 32 - 1)
          → a ≢ u16 (load p s + 2 ^ 32 - 2)
          → t.ram a ≡ s.ram a)
pull16-push16 p v s word h h' =
    let ends = push16-twice p v s word h h' in
    let t = twice p v s in
    let bytes = bit_or_low 8 (u8 (v / 2 ^ 8)) (u8 v) (omega arith) in
    rw ends (
      refl,
      (pull16_lem p t).0 ∙ rw (high_byte p v s word, low_byte p v s word, bytes) (omega arith),
      (pull16_lem p t).1 ∙ rw (load-twice p v s word) (omega arith),
      λ a q q'. ap (λ (f : ℕ → ℕ). f a) (ram-twice p v s word) ∙ ground arith,
    )
