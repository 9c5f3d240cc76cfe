-- ===== src/Linker/Bases.antt =====
-- The bases of segments, objects and symbols. Code: cmds/bintools/ld.c (set_segment_bases).
-- An int has 32 bits, so that sums of two words do not wrap before they are stored.
use fuzemsys.Base.{
  ℕ, ◌+◌, Bool, true, false, ◌&&◌, ◌||◌, not, some, List, [], ◌∷◌, ◌++◌, map, ◌==◌, ltb, leb,
  if◌then◌else◌,
}
use fuzemsys.ObjectFile.{
  oseg, absolute, code_segment, data_segment, bss, zp, discard, common, literal,
}
use fuzemsys.Linker.{Mode, is_rflag, ld_reloc}
use fuzemsys.Linker.Table.{Name, Table, insert_internal_symbol}
use fuzemsys.Linker.Layout.{
  Object, Layout, Result, placed, failed, image_too_large, ◌>>=◌, set_at, sum_sizes, order_segments,
  place_objects, place_symbol,
}

abbrev buffers : ℕ
buffers = 9

abbrev commondata : ℕ
commondata = 8

abbrev pub is_reloc : Mode → Bool
is_reloc ld_reloc = true
is_reloc _ = false

abbrev code_name : Name
code_name = b'_' ∷ b'_' ∷ b'c' ∷ b'o' ∷ b'd' ∷ b'e' ∷ []

abbrev data_name : Name
data_name = b'_' ∷ b'_' ∷ b'd' ∷ b'a' ∷ b't' ∷ b'a' ∷ []

abbrev bss_name : Name
bss_name = b'_' ∷ b'_' ∷ b'b' ∷ b's' ∷ b's' ∷ []

abbrev literal_name : Name
literal_name = b'_' ∷ b'_' ∷ b'l' ∷ b'i' ∷ b't' ∷ b'e' ∷ b'r' ∷ b'a' ∷ b'l' ∷ []

abbrev zp_name : Name
zp_name = b'_' ∷ b'_' ∷ b'z' ∷ b'p' ∷ []

abbrev discard_name : Name
discard_name = b'_' ∷ b'_' ∷ b'd' ∷ b'i' ∷ b's' ∷ b'c' ∷ b'a' ∷ b'r' ∷ b'd' ∷ []

abbrev common_name : Name
common_name = b'_' ∷ b'_' ∷ b'c' ∷ b'o' ∷ b'm' ∷ b'm' ∷ b'o' ∷ b'n' ∷ []

abbrev buffers_name : Name
buffers_name = b'_' ∷ b'_' ∷ b'b' ∷ b'u' ∷ b'f' ∷ b'f' ∷ b'e' ∷ b'r' ∷ b's' ∷ []

abbrev commondata_name : Name
commondata_name =
    b'_' ∷ b'_' ∷ b'c' ∷ b'o' ∷ b'm' ∷ b'm' ∷ b'o' ∷ b'n' ∷ b'd' ∷ b'a' ∷ b't' ∷ b'a' ∷ []

abbrev end_name : Name
end_name = b'_' ∷ b'_' ∷ b'e' ∷ b'n' ∷ b'd' ∷ []

abbrev size_suffix : Name
size_suffix = b'_' ∷ b's' ∷ b'i' ∷ b'z' ∷ b'e' ∷ []

-- The symbols of the linker: name, segment and value.
abbrev pub internal_symbols : (ℕ → ℕ) → List (Name × ℕ × ℕ)
internal_symbols size =
    (code_name, code_segment, 0)
    ∷ (data_name, data_segment, 0)
    ∷ (bss_name, bss, 0)
    ∷ (literal_name, literal, 0)
    ∷ (end_name, bss, size bss)
    ∷ (zp_name, zp, 0)
    ∷ (discard_name, discard, 0)
    ∷ (common_name, common, 0)
    ∷ (buffers_name, buffers, 0)
    ∷ (commondata_name, commondata, 0)
    ∷ (code_name ++ size_suffix, absolute, size code_segment)
    ∷ (data_name ++ size_suffix, absolute, size data_segment)
    ∷ (bss_name ++ size_suffix, absolute, size bss)
    ∷ (literal_name ++ size_suffix, absolute, size literal)
    ∷ (zp_name ++ size_suffix, absolute, size zp)
    ∷ (discard_name ++ size_suffix, absolute, size discard)
    ∷ (common_name ++ size_suffix, absolute, size common)
    ∷ (buffers_name ++ size_suffix, absolute, size buffers)
    ∷ (commondata_name ++ size_suffix, absolute, size commondata)
    ∷ []

unfoldable pub insert_internals : List (Name × ℕ × ℕ) → Table → Table
insert_internals [] t = t
insert_internals ((name, seg, val) ∷ symbols) t =
    insert_internals symbols (insert_internal_symbol name (some seg) val t)

-- With separate spaces for code and data, data starts at 0.
unfoldable pub split_data : Mode → Bool → Layout → Layout
split_data ldmode split_id l =
    if is_reloc ldmode && split_id && not (l.baseset data_segment)
    then record l {
      base = set_at l.base data_segment 0;
      baseset = λ i. if i == data_segment then true else l.baseset i;
    }
    else l

-- The test for an image that is too large.
unfoldable pub is_too_large : Layout → Bool
is_too_large l =
    ltb (l.base bss) (l.base data_segment) || ltb (l.base bss + l.size bss) (l.base bss)

unfoldable pub finish_bases :
    Mode → List Object → Table → Layout → Result (Layout × List Object × Table)
finish_bases ldmode objects t l =
    let t' = if is_rflag ldmode then t else insert_internals (internal_symbols l.size) t in
    let objects' = place_objects objects l.base in
    if not (is_rflag ldmode) && is_too_large l
    then failed image_too_large
    else placed (
      l,
      objects',
      record t' { symhash = λ h. map (place_symbol objects' l.base) (t'.symhash h) },
    )

unfoldable pub set_segment_bases :
    Mode → Bool → List ℕ → List Object → Layout → Table → Result (Layout × List Object × Table)
set_segment_bases ldmode split_id letters objects l t =
    sum_sizes objects (λ i. if i == 0 || leb oseg i then l.size i else 0) >>= λ size.
    order_segments letters (split_data ldmode split_id (record l { size = size }))
    >>= finish_bases ldmode objects t
