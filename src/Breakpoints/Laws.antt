-- ===== src/Breakpoints/Laws.antt =====
-- The breakpoint table as a set of (address, type) pairs. Code: emulators/emumon.c.
use fuzemsys.Base.{
  ℕ, ◌≡◌, refl, ◌≢◌, false, ◌&&◌, ◌||◌, not, none, some, List, [], ◌∷◌, map, ◌==◌, length,
  if◌then◌else◌, arith, Option-cases, ◌+◌, ◌<◌, ◌≤◌, inl, inr,
}
use fuzemsys.Console.{print_no_slot}
use fuzemsys.Breakpoints.{
  BrkPoint, Monitor, brk_empty, clear_at, remove_breakpoint, remove_all_breakpoints, fill_slot,
  set_breakpoint, ignore_breakpoint, found, empty_slot, is_breakpoint, no_addr, monitor_init,
}

-- The used entries of the table.
abbrev pub used : List BrkPoint → ℕ
used [] = 0
used (b ∷ bs) = (if b.brktype == brk_empty then 0 else 1) + used bs

found-fill_slot :
    (a type a' type' : ℕ) (bs : List BrkPoint) {bs' : List BrkPoint}
    → type' ≢ brk_empty
    → fill_slot a type bs ≡ some bs'
    → found a' type' bs' ≡ ((a == a' && type == type') || found a' type' bs)
unfolding fill_slot found
found-fill_slot a type a' type' [] h e = cc
found-fill_slot a type a' type' (b ∷ bs) h e = elim (Option-cases (fill_slot a type bs)) [
  | inl full ↦ ground arith
  | inr (bs'', there) ↦ ground (arith, found-fill_slot a type a' type' bs {bs' = bs''} h there)
]

found-clear_at :
    (a a' type' : ℕ) (bs : List BrkPoint)
    → type' ≢ brk_empty
    → found a' type' (map (clear_at a) bs) ≡ (not (a' == a) && found a' type' bs)
unfolding clear_at found
found-clear_at a a' type' [] h = ground arith
found-clear_at a a' type' (b ∷ bs) h = ground (arith, found-clear_at a a' type' bs h)

fill_slot-none :
    (a type : ℕ) (bs : List BrkPoint) → fill_slot a type bs ≡ none → used bs ≡ length bs
unfolding fill_slot
fill_slot-none a type [] h = refl
fill_slot-none a type (b ∷ bs) h = elim (Option-cases (fill_slot a type bs)) [
  | inl full ↦ ground (arith, fill_slot-none a type bs full)
  | inr (bs', there) ↦ ground arith
]

used-fill_slot :
    (a type : ℕ) (bs : List BrkPoint) {bs' : List BrkPoint}
    → type ≢ brk_empty
    → fill_slot a type bs ≡ some bs'
    → (used bs' ≡ used bs + 1) × (length bs' ≡ length bs)
unfolding fill_slot
used-fill_slot a type [] h e = cc
used-fill_slot a type (b ∷ bs) h e = elim (Option-cases (fill_slot a type bs)) [
  | inl full ↦ ground arith
  | inr (bs'', there) ↦ ground (arith, used-fill_slot a type bs {bs' = bs''} h there)
]

used-le-length : (bs : List BrkPoint) → used bs ≤ length bs
used-le-length [] = omega arith
used-le-length (b ∷ bs) = ground (arith, used-le-length bs)

abbrev pub HasRoom : Monitor → Type 0
HasRoom m = used m.brkpointlist < length m.brkpointlist

-- With a free slot, setting a breakpoint adds exactly that address and type to what the table
-- reports, fills one slot, keeps the table's size, leaves the ignored address alone and prints nothing.
pub found-set_breakpoint :
    (a type : ℕ) (m : Monitor)
    → type ≢ brk_empty
    → HasRoom m
    → let (m', printed) = set_breakpoint a type m in
      ((a' type' : ℕ)
        → type' ≢ brk_empty
        → found a' type' m'.brkpointlist
          ≡ ((a == a' && type == type') || found a' type' m.brkpointlist))
      × (used m'.brkpointlist ≡ used m.brkpointlist + 1)
      × (length m'.brkpointlist ≡ length m.brkpointlist)
      × (m'.ignored_addr ≡ m.ignored_addr)
      × (printed ≡ [])
unfolding set_breakpoint
found-set_breakpoint a type m h room = elim (Option-cases (fill_slot a type m.brkpointlist)) [
  | inl full ↦ absurd (omega (arith, fill_slot-none a type m.brkpointlist full))
  | inr (bs, there) ↦
      rw (there, set_breakpoint)
        (
          (λ a' type' h'. found-fill_slot a type a' type' m.brkpointlist h' there),
          (used-fill_slot a type m.brkpointlist h there).0,
          (used-fill_slot a type m.brkpointlist h there).1,
          refl,
          refl,
        )
]

-- With no free slot, setting a breakpoint changes nothing and prints the message.
pub set_breakpoint_full :
    (a type : ℕ) (m : Monitor)
    → ¬ (HasRoom m)
    → type ≢ brk_empty
    → set_breakpoint a type m ≡ (m, print_no_slot ∷ [])
unfolding set_breakpoint
set_breakpoint_full a type m full h = elim (Option-cases (fill_slot a type m.brkpointlist)) [
  | inl e ↦ rw (e, set_breakpoint)
  | inr (bs, there) ↦
      absurd (full (omega (arith, used-fill_slot a type m.brkpointlist h there, used-le-length bs)))
]

-- Removing a breakpoint removes the address with every type, and no other address.
pub found-remove_breakpoint :
    (a a' type' : ℕ) (m : Monitor)
    → type' ≢ brk_empty
    → found a' type' (remove_breakpoint a m).brkpointlist
      ≡ (not (a' == a) && found a' type' m.brkpointlist)
unfolding remove_breakpoint
found-remove_breakpoint a a' type' m h = found-clear_at a a' type' m.brkpointlist h

found-empty_slot :
    (a type : ℕ) (bs : List BrkPoint) → type ≢ brk_empty → found a type (map empty_slot bs) ≡ false
unfolding found empty_slot
found-empty_slot a type [] h = refl
found-empty_slot a type (b ∷ bs) h = ground (arith, found-empty_slot a type bs h)

-- After monitor_init the table reports no breakpoint.
pub found-monitor_init :
    (a type : ℕ) (m : Monitor)
    → type ≢ brk_empty
    → found a type (monitor_init m).brkpointlist ≡ false
unfolding monitor_init remove_all_breakpoints
found-monitor_init a type m h = found-empty_slot a type m.brkpointlist h

-- The ignored address is passed over by one call of is_breakpoint, of either type, and the next
-- call for that address answers from the table, provided that the address is not -1.
pub is_breakpoint-ignore_breakpoint :
    (a type type' : ℕ) (m : Monitor)
    → a ≢ no_addr
    → let (hit, m') = is_breakpoint a type (ignore_breakpoint a m) in
      (hit ≡ false) × ((is_breakpoint a type' m').0 ≡ found a type' m.brkpointlist)
unfolding is_breakpoint ignore_breakpoint
is_breakpoint-ignore_breakpoint a type type' m h = ground arith
