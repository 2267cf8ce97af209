-- ===== src/Mm/Heap/Relist.antt =====
-- A page around a region with one payload `r` in it, in a new state in which only links of free
-- blocks and of that payload may differ.
use uof_ufall.Base.{ℕ, ◌+◌, ◌≤◌, ◌<◌, ◌≡◌, true, false, List, arith, ◌⊎◌}
use uof_ufall.Machine.{Ptr, State}
use uof_ufall.Mm.Blocks.Footer.{PageList, PageAt, PageAt-frame}
use uof_ufall.Mm.Heap.{Block, Tiles, frees}
use uof_ufall.Mm.Heap.Tiles.{Tiles-le, Tiles-frame, frees-bounds}
use uof_ufall.Mm.Lists.Chain.{is_link}
use uof_ufall.Mm.Lists.Chunk.{is_page_word}

-- where a link inside of the page may lie
abbrev pub Place : ℕ → Ptr → List Block → Ptr → List Block → Ptr → Type 0
Place a p xs q ys r =
    (is_link a (frees p xs) ≡ true) ⊎ ((is_link a (frees q ys) ≡ true) ⊎ ((a ≡ r) ⊎ (a ≡ r + 8)))

module _ {s : State} {fuel : ℕ} {l : PageList} {pc end : Ptr} (xs : List Block) (q n : ℕ)
    (ys : List Block) (here : PageAt s fuel l pc end) (front : Tiles s.mem (pc + 32) q xs)
    (back : Tiles s.mem (q + n) end ys) (r : Ptr) (low : q + 16 ≤ r) (high : r + 32 ≤ q + n)
    (t : State) (touched : List Ptr)
    (same : (a : ℕ) → is_link a touched ≡ false → t.mem a ≡ s.mem a)
    (heads : t.page_list_head ≡ s.page_list_head)
    (touch : (a : ℕ)
      → pc ≤ a
      → a < end
      → is_link a touched ≡ true
      → Place a (pc + 32) xs (q + n) ys r)
    (words : (a : ℕ) → is_link a touched ≡ true → is_page_word a l.pages ≡ false) where
  start : pc + 32 ≤ q
  start = Tiles-le s.mem (pc + 32) q xs front

  stop : q + n ≤ end
  stop = Tiles-le s.mem (q + n) end ys back

  pub relist-here : PageAt t fuel l pc end
  relist-here = PageAt-frame t here heads λ a w. same a (ground (arith, words a))

  pub relist-front : Tiles t.mem (pc + 32) q xs
  relist-front = Tiles-frame s.mem t.mem (pc + 32) q xs front λ a lo hi o.
      same a (ground (arith, touch a, frees-bounds s.mem (q + n) end ys a back, start, stop))

  pub relist-back : Tiles t.mem (q + n) end ys
  relist-back = Tiles-frame s.mem t.mem (q + n) end ys back λ a lo hi o.
      same a (ground (arith, touch a, frees-bounds s.mem (pc + 32) q xs a front, start, stop))

  pub relist-word : (a : ℕ) → q ≤ a → a < q + n → ((a < r) ⊎ (r + 16 ≤ a)) → t.mem a ≡ s.mem a
  relist-word a lo hi at = same a (
      ground (
        arith,
        touch a,
        frees-bounds s.mem (pc + 32) q xs a front,
        frees-bounds s.mem (q + n) end ys a back,
        start,
        stop,
      ))
