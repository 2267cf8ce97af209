-- ===== src/Memlib.antt =====
-- cs4400/assn5/malloclab-handout/memlib.c, and `pagemap_for_each` of pagemap.c, which it calls.
pub mod Unmap
pub mod Table
pub mod Map
pub mod Reset
use uof_ufall.Base.{
  leb, ltb, ℕ, zero, suc, ◌+◌, ◌-◌, ◌*◌, ◌/◌, ◌%◌, ◌^◌, Bool, true, false, not, Option, none, some,
  bit_and, ◌==◌, if◌then◌else◌,
}
use uof_ufall.Machine.{
  fault, Ptr, ok, aborted, out_of_fuel, Cmd, pure, ◌>>=◌, ◌>>◌, abort, Os, mmap, munmap,
}
use uof_ufall.Pagemap
use uof_ufall.Pagemap.{Slot}

abbrev pub apage_size : ℕ
apage_size = 2 ^ 12

-- pagemap.c's functions as commands.
unfoldable pub modify : Ptr → Bool → Cmd (Unit {0})
unfolding Pagemap.pagemap_modify
modify p mapped s = elim (Pagemap.pagemap_modify p mapped s.pagemap) [
  | none ↦ aborted
  | some m ↦ ok tt (record s { pagemap = m })
]

unfoldable pub is_mapped : Ptr → Cmd Bool
is_mapped p s = ok (Pagemap.pagemap_is_mapped p s.pagemap) s

-- The counters are 32-bit integers, as bit patterns.
add_page_count : Cmd (Unit {0})
add_page_count s = ok tt (record s { page_count = (s.page_count + 1) % 2 ^ 32 })

sub_page_count : Cmd (Unit {0})
sub_page_count s = ok tt (record s { page_count = (s.page_count + 2 ^ 32 - 1) % 2 ^ 32 })

-- The `while` of `pagemap_for_each`: `next` is read before the callback.
unfoldable pub for_each_loop : ℕ → (Ptr → Cmd (Unit {0})) → Option Slot → Cmd (Unit {0})
unfolding modify
for_each_loop fuel f none = pure tt
for_each_loop zero f (some t) = λ _. out_of_fuel
for_each_loop (suc fuel) f (some t) = λ s.
    let page = s.pagemap.entry t in
    let rest = for_each_loop fuel f page.next in
    (do f page.addr; (λ u. modify (u.pagemap.entry t).addr false u); rest) s

unfoldable pub pagemap_for_each : ℕ → (Ptr → Cmd (Unit {0})) → Cmd (Unit {0})
unfolding for_each_loop
pagemap_for_each fuel f s =
    (do
      for_each_loop fuel f s.pagemap.all_mapped_pages
      (λ u. ok tt (record u { pagemap = record (u.pagemap) { all_mapped_pages = none } })))
      s

module _ (os : Os) where
  unfoldable pub mem_init : Cmd (Unit {0})
  mem_init = if apage_size == os.getpagesize then pure tt else abort

  unfoldable pub unmap : Ptr → Cmd (Unit {0})
  unmap p = do done ← munmap os p apage_size; if done then pure tt else abort

  unfoldable pub mem_reset : ℕ → Cmd (Unit {0})
  unfolding pagemap_for_each unmap
  mem_reset fuel = do
    pagemap_for_each fuel unmap
    λ s. ok tt (record s { page_count = 0; activity_counter = 0 })

  -- The `for` of `mem_map`, by the pages left.
  unfoldable pub map_loop : ℕ → Ptr → Cmd (Unit {0})
  unfolding add_page_count modify
  map_loop zero p = pure tt
  map_loop (suc n) p = do modify p true; add_page_count; map_loop n (p + apage_size)

  -- A page is mapped and left alone at each power of two, so that regions are not sequential.
  unfoldable pub decoy : Cmd (Unit {0})
  decoy s =
      if bit_and s.activity_counter ((s.activity_counter + 2 ^ 32 - 1) % 2 ^ 32) == 0
      then (mmap os apage_size >> pure tt) s
      else ok tt s

  unfoldable pub mem_map : ℕ → Cmd Ptr
  unfolding map_loop decoy
  mem_map size = if not (size % apage_size == 0) then abort else do
    λ s. ok tt (record s { activity_counter = (s.activity_counter + 1) % 2 ^ 32 })
    decoy
    answer ← mmap os size
    elim answer [ none ↦ abort | some p ↦ do map_loop (size / apage_size) p; pure p ]

  -- The `for` of `mem_unmap`, by the pages left.
  unfoldable pub unmap_loop : ℕ → Ptr → Cmd (Unit {0})
  unfolding sub_page_count modify is_mapped
  unmap_loop zero p = pure tt
  unmap_loop (suc n) p = do
    mapped ← is_mapped p
    if mapped then (do modify p false; sub_page_count; unmap_loop n (p + apage_size)) else abort

  unfoldable pub mem_unmap : Ptr → ℕ → Cmd (Unit {0})
  unfolding unmap_loop
  mem_unmap p size =
      if not (p % apage_size == 0)
      then abort
      else if not (size % apage_size == 0)
      then abort
      else do
        unmap_loop (size / apage_size) p
        done ← munmap os p size
        if done then pure tt else abort

unfoldable pub mem_pagesize : ℕ
mem_pagesize = apage_size

-- The product of two values of type `int`: `page_count` is a 32-bit pattern, a product outside of the
-- range of `int` is a fault, and a negative one is converted to a `size_t`.
unfoldable pub mem_heapsize : Cmd ℕ
mem_heapsize s =
    if ltb s.page_count (2 ^ 19)
    then ok (apage_size * s.page_count) s
    else if leb (2 ^ 32 - 2 ^ 19) s.page_count
    then ok (2 ^ 64 - apage_size * (2 ^ 32 - s.page_count)) s
    else fault
