-- ===== src/Linker/Tests.antt =====
-- A small link: its symbols, and the places of its segments and objects. Code: cmds/bintools/ld.c.
use fuzemsys.Base.{
  ◌⊎◌, ℕ, ◌+◌, ◌≤◌, ◌≡◌, refl, false, none, some, List, [], ◌∷◌, get_elem?, arith, if◌then◌else◌,
  ◌==◌,
}
use fuzemsys.ObjectFile.{code_segment}
use fuzemsys.Linker.{ld_rflag}
use fuzemsys.Linker.Table.{Name, Entry, Table, same_upto, find_in, find_symbol, find_alloc_symbol}
use fuzemsys.Linker.Lookup.{lookup, resolved, lookup-find_alloc_symbol}
use fuzemsys.Linker.Order.{IsDefined, order_of_objects}
use fuzemsys.Linker.Layout.{
  Object, Layout, Result, placed, failed, sum_sizes, add_sizes, order_from, segment_letter,
  place_objects, order_segments, default_order,
}
use fuzemsys.Linker.Append.{IsReady, InOrder, order_segments-InOrder}
use fuzemsys.Linker.Bases.{split_data, finish_bases, set_segment_bases}
use fuzemsys.Linker.Apart.{set_segment_bases-apart}

abbrev empty_table : Table
empty_table = record { symhash = λ h. []; err = 0; progress = 0; complaints = [] }

abbrev main_name : Name
main_name = b'm' ∷ b'a' ∷ b'i' ∷ b'n' ∷ []

lookup-find_alloc_symbol_example :
    lookup main_name (find_alloc_symbol (some 0) 0x41 main_name 16 empty_table)
    ≡ some (resolved (some 0) 0x41 main_name 16 (lookup main_name empty_table))
unfolding same_upto
lookup-find_alloc_symbol_example =
    lookup-find_alloc_symbol (some 0) 0x41 main_name 16 main_name empty_table

order_of_objects_example :
    ((s : Entry) × (lookup main_name (
          find_alloc_symbol
            (some 1)
            0x41
            main_name
            16
            (find_alloc_symbol (some 0) 0x8f main_name 0 empty_table))
        ≡ some s)
      × IsDefined (some 1) 0x41 16 s)
    × ((s : Entry) × (lookup main_name (
            find_alloc_symbol
              (some 0)
              0x8f
              main_name
              0
              (find_alloc_symbol (some 1) 0x41 main_name 16 empty_table))
          ≡ some s)
        × IsDefined (some 1) 0x41 16 s)
unfolding find_symbol find_in
order_of_objects_example =
    order_of_objects (some 1) (some 0) 0x8f 0x41 main_name 16 0 empty_table refl (omega arith) refl
      refl refl

abbrev sizes : Layout
sizes = record {
  base = λ i. if i == code_segment then 0x100 else 0;
  size = λ i. if i == code_segment then 0x35 else 0x20;
  baseset = λ i. false;
  align = 16;
}

sizes-IsReady : IsReady sizes
sizes-IsReady = record { free = λ i. refl; positive = omega arith; small = λ i. ground arith }

order_segments-InOrder_example :
    (l' : Layout) × (order_segments default_order sizes ≡ placed l') × InOrder sizes l'
order_segments-InOrder_example = order_segments-InOrder sizes sizes-IsReady (omega arith)

abbrev one_object : Object
one_object = record { o_size = λ i. if i == code_segment then 0x30 else 8; base = λ i. 0 }

abbrev unplaced : Layout
unplaced = record { base = λ i. 0; size = λ i. 0; baseset = λ i. false; align = 1 }

-- What was placed, of a link that is.
abbrev placed_link : Result (Layout × List Object × Table) → Layout × List Object × Table
placed_link (placed x) = x
placed_link (failed e) = (unplaced, [], empty_table)

abbrev object_at : List Object → ℕ → Object
object_at objects k = elim (get_elem? objects k) [ none ↦ one_object | some o ↦ o ]

abbrev two_objects : Layout × List Object × Table
two_objects = placed_link (
    set_segment_bases ld_rflag false (b'C' ∷ []) (one_object ∷ one_object ∷ []) unplaced
      empty_table)

set_segment_bases-apart_example :
    (two_objects.0.base 1 ≤ (object_at two_objects.1 0).base 1)
    × ((object_at two_objects.1 1).base 1 + (object_at two_objects.1 1).o_size 1
        ≤ two_objects.0.base 1 + two_objects.0.size 1)
    × ((◌≡◌ {A = ℕ} 0 1)
        ⊎ ((object_at two_objects.1 0).base 1 + (object_at two_objects.1 0).o_size 1
            ≤ (object_at two_objects.1 1).base 1))
unfolding set_segment_bases sum_sizes add_sizes order_segments order_from segment_letter split_data
    finish_bases place_objects
set_segment_bases-apart_example =
    set_segment_bases-apart ld_rflag false (b'C' ∷ []) (one_object ∷ one_object ∷ []) two_objects.1
      unplaced two_objects.0 empty_table two_objects.2 1 0 1 (object_at two_objects.1 0)
      (object_at two_objects.1 1) ((λ i. ground arith), ((λ i. ground arith), tt)) refl
      (omega arith) (omega arith) (omega arith) (omega arith) refl refl
