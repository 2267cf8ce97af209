-- ===== src/Mm/Blocks/Footer.antt =====
-- `write_footer`, `get_prev_block` and `get_next_block` of mm.c inside a page.
use uof_ufall.Base.{
  Bool, ℕ, ◌+◌, ◌-◌, ◌≤◌, ◌<◌, ◌≡◌, refl, true, some, List, arith, length, ◌==◌, if◌then◌else◌, ◌⊎◌,
  ◌∙◌, false,
}
use uof_ufall.Machine.{Ptr, null, State, ok, write, load, store}
use uof_ufall.Mm.Layout.{block_size}
use uof_ufall.Mm.Lists.{find_page_chunk_for_addr}
use uof_ufall.Mm.Lists.Chunk.{Pages, Pages-frame, is_page_word, first_page, find_page-first_page}
use uof_ufall.Mm.Blocks.{write_footer, get_prev_block, get_next_block}

-- The page list: its pages in order, and the end that the header of each states. The state and
-- the free list `free` are those that a state is compared with outside of the page at hand.
pub record PageList : Type 0 where
  pub ends : Ptr → Ptr
  pub pages : List Ptr
  pub from : State
  pub free : List Ptr
  -- the bytes that an operation has to leave alone
  pub keep : ℕ → Bool

-- The page `pc` of the page list, whose header states the end `end`: the search finds it for every
-- address of its body, and no header of a page lies in its body.
pub record PageAt (s : State) (fuel : ℕ) (l : PageList) (pc end : Ptr) : Type 0 where
  pub listed : Pages s.mem l.ends s.page_list_head l.pages
  pub enough : length l.pages < fuel
  pub ne_null : 0 < pc
  pub page_end : s.mem (pc + 24) ≡ some end
  pub word : is_page_word (pc + 24) l.pages ≡ true
  pub found : (a : ℕ) → pc + 32 ≤ a → a < end → first_page l.ends a l.pages ≡ pc
  pub apart : (a : ℕ) → pc + 32 ≤ a → a < end → is_page_word a l.pages ≡ false

-- a change of memory that spares the headers of the pages keeps the page
pub PageAt-frame :
    {s : State} {fuel : ℕ} {l : PageList} {pc end : Ptr} (t : State) (i : PageAt s fuel l pc end)
    → t.page_list_head ≡ s.page_list_head
    → ((a : ℕ) → is_page_word a l.pages ≡ true → t.mem a ≡ s.mem a)
    → PageAt t fuel l pc end
PageAt-frame {s} {fuel} {l} {pc} {end} t i head same = record {
  listed = rw head (Pages-frame i.listed same);
  enough = i.enough;
  ne_null = i.ne_null;
  page_end = same (pc + 24) i.word ∙ i.page_end;
  word = i.word;
  found = i.found;
  apart = i.apart;
}

-- a write into the body of the page
pub PageAt-write :
    {s : State} {fuel : ℕ} {l : PageList} {pc end : Ptr} (a v : ℕ) (i : PageAt s fuel l pc end)
    → pc + 32 ≤ a
    → a < end
    → PageAt (record s { mem = write s.mem a v }) fuel l pc end
unfolding write
PageAt-write {s} a v i low high =
    PageAt-frame (record s { mem = write s.mem a v }) i refl λ b w. ground (arith, i.apart a)

module _ (s : State) (fuel : ℕ) {l : PageList} (h pc end : Ptr) (i : PageAt s fuel l pc end)
    (start : pc + 32 ≤ h) (below : h < end) where
  found-ok : find_page_chunk_for_addr fuel h s ≡ ok pc s
  found-ok =
      rw (← i.found h start below) (find_page-first_page s l.ends h fuel l.pages i.listed i.enough)

  -- For a block inside of a page of the page list, with its header's size and the place of its
  -- footer mapped, `write_footer` ends without abort and writes the size to the last 16 bytes of
  -- the block, and nothing else.
  pub write_footer-ok :
      {size v : ℕ}
      → s.mem h ≡ some size
      → s.mem (h + size - 16) ≡ some v
      → 16 ≤ size
      → h + size ≤ end
      → write_footer fuel h s ≡ ok tt (record s { mem = write s.mem (h + size - 16) size })
  unfolding write_footer block_size load store
  write_footer-ok {size} {v} e f low high = ground (arith, found-ok, i.page_end, i.ne_null)

  -- For a block inside of a page of the page list that ends with the page or at least 16 bytes
  -- before it, `get_next_block` returns null in the first case and the address behind the block in
  -- the second, and changes nothing.
  pub get_next_block-ok :
      {size : ℕ}
      → s.mem h ≡ some size
      → 16 ≤ size
      → ((h + size ≡ end) ⊎ (h + size + 16 ≤ end))
      → get_next_block fuel h s ≡ ok (if h + size == end then null else h + size) s
  unfolding get_next_block block_size load
  get_next_block-ok e low next = ground (arith, found-ok, i.page_end, i.ne_null)

  -- no block stands before the first one of a page
  pub get_prev_block-first : h ≡ pc + 32 → get_prev_block fuel h s ≡ ok null s
  unfolding get_prev_block load
  get_prev_block-first e = ground (arith, found-ok, i.page_end, i.ne_null)

  -- Where the footer in front of a header inside of a page states a size of at least 32, and a block
  -- of that size fits behind the page's header, `get_prev_block` returns the start of that block and
  -- changes nothing.
  pub get_prev_block-ok :
      {size : ℕ}
      → s.mem (h - 16) ≡ some size
      → 32 ≤ size
      → pc + 32 + size ≤ h
      → get_prev_block fuel h s ≡ ok (h - size) s
  unfolding get_prev_block load
  get_prev_block-ok e low fits = ground (arith, found-ok, i.page_end, i.ne_null)
