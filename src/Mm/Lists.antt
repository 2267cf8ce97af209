-- ===== src/Mm/Lists.antt =====
-- The two linked lists of mm.c: the free list with its first-fit search, and the page list.
pub mod Chain
pub mod Insert
pub mod Around
pub mod Splice
pub mod Remove
pub mod Unlink
pub mod Push
pub mod Fit
pub mod Chunk
use uof_ufall.Base.{
  ℕ, zero, suc, ◌+◌, ◌-◌, Bool, true, false, ◌&&◌, ◌==◌, if◌then◌else◌, leb, ltb, add64,
}
use uof_ufall.Machine.{Ptr, null, Cmd, pure, ok, out_of_fuel, ◌>>=◌, ◌>>◌}
use uof_ufall.Mm.Layout.{
  hdrsize, fdrsize, pagehdrsize, get_alloc, block_size, get_prev, get_next, set_prev, set_next,
  get_page_end,
}

abbrev pub get_free_head : Cmd Ptr
get_free_head s = ok s.free_list_head s

abbrev pub set_free_head : Ptr → Cmd (Unit {0})
set_free_head p s = ok tt (record s { free_list_head = p })

abbrev pub get_page_head : Cmd Ptr
get_page_head s = ok s.page_list_head s

abbrev pub set_page_head : Ptr → Cmd (Unit {0})
set_page_head p s = ok tt (record s { page_list_head = p })

unfoldable pub insert_free_block : Ptr → Cmd (Unit {0})
insert_free_block bp = do
  set_prev bp null
  head ← get_free_head
  set_next bp head
  if head == null then pure tt else set_prev head bp
  set_free_head bp

unfoldable pub remove_free_block : Ptr → Cmd (Unit {0})
remove_free_block bp = do
  prev ← get_prev bp
  next ← get_next bp
  if prev == null then set_free_head next else set_next prev next
  if next == null then pure tt else set_prev next prev
  set_prev bp null
  set_next bp null

-- `!GET_ALLOC(h) && BLOCK_SIZE(h) >= total_size`
unfoldable pub fits : Ptr → ℕ → Cmd Bool
fits h total_size = do
  alloc ← get_alloc h
  if alloc == 0 then (do size ← block_size h; pure (leb total_size size)) else pure false

unfoldable pub find_fit_loop : ℕ → ℕ → Ptr → Cmd Ptr
unfolding fits
find_fit_loop zero asize bp = λ _. out_of_fuel
find_fit_loop (suc fuel) asize bp = if bp == null then pure null else do
  found ← fits (bp - hdrsize) (add64 (add64 hdrsize asize) fdrsize)
  if found then pure bp else do next ← get_next bp; find_fit_loop fuel asize next

unfoldable pub find_fit : ℕ → ℕ → Cmd Ptr
unfolding find_fit_loop
find_fit fuel asize = do head ← get_free_head; find_fit_loop fuel asize head

unfoldable pub find_page_loop : ℕ → Ptr → Ptr → Cmd Ptr
find_page_loop zero h pc = λ _. out_of_fuel
find_page_loop (suc fuel) h pc = if pc == null then pure null else do
  page_end ← get_page_end pc
  if leb (pc + pagehdrsize) h && ltb h page_end
      then pure pc
      else do next ← get_next pc; find_page_loop fuel h next

unfoldable pub find_page_chunk_for_addr : ℕ → Ptr → Cmd Ptr
unfolding find_page_loop
find_page_chunk_for_addr fuel h = do head ← get_page_head; find_page_loop fuel h head

-- The links that `mm_malloc` writes for a new page.
unfoldable pub push_page : Ptr → Cmd (Unit {0})
push_page pc = do
  head ← get_page_head
  if head == null then pure tt else set_prev head pc
  set_page_head pc

-- The links that `check_and_unmap_full_pages` writes for a page that it drops.
unfoldable pub unlink_page : Ptr → Cmd (Unit {0})
unlink_page pc = do
  prev ← get_prev pc
  next ← get_next pc
  if prev == null then set_page_head next else set_next prev next
  if next == null then pure tt else set_prev next prev
