-- ===== src/Tests/Tables.antt =====
-- The page table and the driver's range list.
use uof_ufall.Base.{
  if◌then◌else◌, ◌∙◌, ◌^◌, ℕ, ◌+◌, ◌-◌, ◌%◌, ◌≤◌, ◌<◌, ◌≡◌, ◌↔◌, refl, true, false, none, some,
  List, [], ◌∷◌, arith, inr, All, subst,
}
use uof_ufall.Machine.{State, within}
use uof_ufall.Machine.Returns.{Returns}
use uof_ufall.Memlib.{mem_unmap}
use uof_ufall.Memlib.Table.{TableInv}
use uof_ufall.Memlib.Unmap.{RegionMapped, mem_unmap-ok}
use uof_ufall.Tests.{linux}
use uof_ufall.Pagemap.{same_slot, Pagemap, initial, slot_of, pagemap_modify, pagemap_is_mapped}
use uof_ufall.Pagemap.Links.{nil}
use uof_ufall.Pagemap.Listing.{MappedList, map-MappedList, unmap-MappedList}
use uof_ufall.Pagemap.Laws.{slot_mapped, is_mapped-modify, unmap-aborts_iff}
use uof_ufall.Driver.Ranges.{Range, added, pages_mapped, rounds, add_range, remove_range}
use uof_ufall.Driver.Ranges.Laws.{
  Apart, add_range-added, add_range-Apart, add_range-misses, remove_range-add_range,
}

-- the table after the page at 4096 was mapped
abbrev pub table : Pagemap
unfolding pagemap_modify
table = elim (pagemap_modify 4096 true initial) [ none ↦ initial | some m ↦ m ]

table-eq : pagemap_modify 4096 true initial ≡ some table
unfolding pagemap_modify table
table-eq = refl

is_mapped-modify_example : pagemap_is_mapped 5000 table ≡ true
is_mapped-modify_example = is_mapped-modify 4096 5000 true initial table (omega arith) table-eq

unmap-aborts_iff_example :
    (pagemap_modify 9000 false initial ≡ none) ↔ (pagemap_is_mapped 9000 initial ≡ false)
unmap-aborts_iff_example = unmap-aborts_iff 9000 initial

-- the payloads of 100 bytes at 4608 and of 16 bytes at 4096, on that page
abbrev range_at : ℕ → ℕ → Range
range_at lo size = record { lo = lo; hi = lo + size - 1 }

abbrev in_use : List Range
in_use = range_at 4608 100 ∷ []

table-accepts : add_range in_use 4096 16 table ≡ added (range_at 4096 16 ∷ in_use)
unfolding add_range pagemap_is_mapped table
table-accepts = refl

table-last : pagemap_is_mapped (4352 + 1024 - 1) table ≡ true
unfolding pagemap_is_mapped table
table-last = refl

table-pages : pages_mapped (rounds 1024) 4352 table ≡ true
unfolding pages_mapped pagemap_is_mapped table
table-pages = refl

add_range-added_example :
    (0 < 16)
    × (4096 % 16 ≡ 0)
    × (range_at 4096 16 ∷ in_use ≡ range_at 4096 16 ∷ in_use)
    × ((a : ℕ) → 4096 ≤ a → a < 4096 + 16 → pagemap_is_mapped a table ≡ true)
add_range-added_example =
    add_range-added in_use (range_at 4096 16 ∷ in_use) 4096 16 table table-accepts

add_range-Apart_example : All (Apart 4096 4111) in_use
add_range-Apart_example =
    add_range-Apart in_use (range_at 4096 16 ∷ in_use) 4096 16 table table-accepts (omega arith, tt)
      (inr (omega arith), tt)

add_range-misses_example : add_range in_use 4352 1024 table ≡ added (range_at 4352 1024 ∷ in_use)
add_range-misses_example =
    add_range-misses in_use 4352 1024 table (omega arith) refl table-pages table-last
      ((omega arith, omega arith, omega arith), tt)

remove_range-add_range_example : remove_range (range_at 4096 16 ∷ in_use) 4096 ≡ in_use
remove_range-add_range_example =
    remove_range-add_range in_use (range_at 4096 16 ∷ in_use) 4096 16 table table-accepts

-- a machine with that page
abbrev holding : State
holding = record {
  mem = λ a. if within 4096 4096 a then some 7 else none;
  free_list_head = 0;
  page_list_head = 0;
  pagemap = table;
  page_count = 1;
  activity_counter = 0;
  mmap_calls = 1;
}

pub table-RegionMapped : RegionMapped 4096 4096 table
table-RegionMapped q low high =
    is_mapped-modify 4096 q true initial table (omega arith) table-eq ∙ ground arith

initial-MappedList : MappedList initial []
unfolding slot_mapped
initial-MappedList = record { links = nil; members = λ t. refl; home = λ t h. cc }

table-MappedList : MappedList table (slot_of 4096 ∷ [])
unfolding pagemap_is_mapped
table-MappedList =
    let (m', e, l) = map-MappedList 4096 initial initial-MappedList (omega arith) refl in
    subst (λ z. MappedList z (slot_of 4096 ∷ [])) (cc (e, table-eq)) l

pub table-TableInv : TableInv table
unfolding slot_of same_slot
table-TableInv = (_, table-MappedList, λ t h. ground arith)

map-MappedList_example :
    (m' : Pagemap) × (pagemap_modify 8192 true table ≡ some m')
    × MappedList m' (slot_of 8192 ∷ slot_of 4096 ∷ [])
unfolding pagemap_is_mapped table
map-MappedList_example = map-MappedList 8192 table table-MappedList (omega arith) refl

unmap-MappedList_example :
    (m' : Pagemap) × (pagemap_modify 4096 false table ≡ some m') × MappedList m' []
unmap-MappedList_example = unmap-MappedList 4096 table [] [] table-MappedList

mem_unmap-ok_example :
    Returns
      (λ _ t.
        ((q : ℕ)
          → pagemap_is_mapped q t.pagemap
            ≡ (if within 4096 4096 q then false else pagemap_is_mapped q table))
        × ((a : ℕ) → t.mem a ≡ (if within 4096 4096 a then none else holding.mem a))
        × ((t.page_count + 1) % 2 ^ 32 ≡ 1)
        × (t ≡ record holding { mem = t.mem; pagemap = t.pagemap; page_count = t.page_count }))
      (mem_unmap linux 4096 4096 holding)
mem_unmap-ok_example =
    mem_unmap-ok linux 4096 4096 holding (omega arith) refl refl table-RegionMapped refl
