-- ===== src/Mm/Heap/Listing.antt =====
-- Listing a region as a free block, and taking a free block off the list: `insert_free_block` and
-- `remove_free_block` inside of a page.
use uof_ufall.Base.{
  ℕ, ◌+◌, ◌-◌, ◌%◌, ◌≤◌, ◌<◌, ◌≡◌, ◌==◌, refl, true, false, List, ◌∷◌, ◌++◌, arith, ap, ◌∙◌, ◌⊎◌,
  inl, inr, Bool-cases,
}
use uof_ufall.Machine.{Ptr, State}
use uof_ufall.Machine.Returns
use uof_ufall.Machine.Returns.{Returns}
use uof_ufall.Mm.Blocks.Elsewhere.{Outside, Elsewhere-relist}
use uof_ufall.Mm.Blocks.Footer.{PageList, PageAt}
use uof_ufall.Mm.Heap.{Block, block, IsBlock, PageInv}
use uof_ufall.Mm.Heap.Keeps.{Spared-append}
use uof_ufall.Mm.Heap.Page.{Hole, Hole-link, Chain-mapped}
use uof_ufall.Mm.Heap.Relist.{Place, relist-here, relist-front, relist-back, relist-word}
use uof_ufall.Mm.Heap.Region.{Hole-start, Hole-end}
use uof_ufall.Mm.Heap.Tiles.{Tiles-append, IsBlock-frame, frees-append, has-bounds}
use uof_ufall.Mm.Lists.{insert_free_block}
use uof_ufall.Mm.Lists.Chain.{has, is_link}
use uof_ufall.Mm.Lists.Chunk.{is_page_word}
use uof_ufall.Mm.Lists.Insert.{FreeListIs, insert-Chain}

module _ {s : State} {fuel : ℕ} {l : PageList} {pc end : Ptr} {xs : List Block} {q n : ℕ}
    {ys : List Block} {fl : List Ptr} (h : Hole s fuel l pc end xs q n ys fl) where
  -- an element of the list keeps clear of the region
  has-clear : (a : ℕ) → pc ≤ a → a < end → has a fl ≡ true → ((a + 32 ≤ q) ⊎ (q + n + 16 ≤ a))
  has-clear a low high i = ground (
    arith,
    h.member a low high,
    has-bounds s.mem (pc + 32) q xs a h.front,
    has-bounds s.mem (q + n) end ys a h.back,
  )

  pub not-listed : 48 ≤ n → has (q + 16) fl ≡ false
  not-listed large = elim (Bool-cases (has (q + 16) fl)) [
    | inl i ↦ absurd (ground (arith, has-clear (q + 16), Hole-start h, Hole-end h))
    | inr o ↦ o
  ]

  -- the page after the region was listed
  listed-PageInv :
      (t : State)
      → IsBlock s.mem q (block n false)
      → FreeListIs s ((q + 16) ∷ fl) ((q + 16) ∷ fl) t
      → PageInv t fuel l pc end (xs ++ block n false ∷ ys) ((q + 16) ∷ fl)
  listed-PageInv t is r =
      let large = is.large in
      let heads : t.page_list_head ≡ s.page_list_head =
        ap (λ (u : State). u.page_list_head) r.rest in
      let touched = (q + 16) ∷ fl in
      let low : q + 16 ≤ q + 16 = omega arith in
      let high : q + 16 + 32 ≤ q + n = omega arith in
      let front =
        relist-front xs q n ys h.here h.front h.back (q + 16) low high t touched r.same heads touch
          words in
      let back =
        relist-back xs q n ys h.here h.front h.back (q + 16) low high t touched r.same heads touch
          words in
      let word =
        relist-word xs q n ys h.here h.front h.back (q + 16) low high t touched r.same heads touch
          words in
      let is' =
        IsBlock-frame s.mem t.mem q (block n false) is
          (word q (omega arith) (omega arith) (inl (omega arith)))
          (word (q + 8) (omega arith) (omega arith) (inl (omega arith)))
          (word (q + n - 16) (omega arith) (omega arith) (inr (omega arith))) in
      record {
        here =
            relist-here xs q n ys h.here h.front h.back (q + 16) low high t touched r.same heads
              touch words;
        aligned = h.aligned;
        mapped = λ a lo hi. elim (Bool-cases (is_link a touched)) [
          | inl i ↦ Chain-mapped a r.chain i
          | inr o ↦ let (v, e) = h.mapped a lo hi in (v, r.same a o ∙ e)
        ];
        tiles = Tiles-append t.mem (pc + 32) q end xs (block n false ∷ ys) front (is', back);
        chain = r.chain;
        member = λ a lo hi. ground (
          arith,
          h.member a lo hi,
          frees-append t.mem (pc + 32) q xs (block n false ∷ ys) a front,
        );
        links = words;
        elsewhere =
            Elsewhere-relist h.elsewhere t touched touched r.same outside
              (λ a o. ground (arith, aside a o)) outside r.rest;
        keeps = record {
          kept = λ a k. r.same a (unlinked a k) ∙ h.keeps.kept a k;
          spared =
              Spared-append l.keep s.mem (pc + 32) q xs (block n false ∷ ys) h.front h.keeps.front
                ((λ u. h.keeps.outside), h.keeps.back);
          unlinked = unlinked;
        };
      }
    where
      unlinked : (a : ℕ) → l.keep a ≡ true → is_link a ((q + 16) ∷ fl) ≡ false
      unlinked a k = ground (arith, h.keeps.outside a k, h.keeps.unlinked a k, is.large)

      aside :
          (a : ℕ) → Outside a (pc + 32) end → ((a == q + 16) ≡ false) × ((a == q + 16 + 8) ≡ false)
      aside a o = ground (arith, Hole-start h, Hole-end h, is.large)

      outside : (a : ℕ) → Outside a (pc + 32) end → is_link a ((q + 16) ∷ fl) ≡ is_link a fl
      outside a o = ground (arith, aside a o)

      words : (a : ℕ) → is_link a ((q + 16) ∷ fl) ≡ true → is_page_word a l.pages ≡ false
      words a i =
          ground (arith, h.links a, PageAt.apart h.here a, Hole-start h, Hole-end h, is.large)

      touch :
          (a : ℕ)
          → pc ≤ a
          → a < end
          → is_link a ((q + 16) ∷ fl) ≡ true
          → Place a (pc + 32) xs (q + n) ys (q + 16)
      touch a lo hi i = ground (arith, Hole-link h a)

  -- Where the region is written as a free block that starts at a multiple of 16,
  -- `insert_free_block` of its payload ends without a fault and lists it: the page is well-formed
  -- with the free block in the region's place, and the payload is in front of the free list.
  pub insert-PageInv :
      IsBlock s.mem q (block n false)
      → q % 16 ≡ 0
      → Returns
          (λ _ t.
            PageInv t fuel l pc end (xs ++ block n false ∷ ys) ((q + 16) ∷ fl)
            × FreeListIs s ((q + 16) ∷ fl) ((q + 16) ∷ fl) t)
          (insert_free_block (q + 16) s)
  insert-PageInv is al =
      let large = is.large in
      let start = Hole-start h in
      let stop = Hole-end h in
      let (u, e) = h.mapped (q + 16) (omega arith) (omega arith) in
      let (v, f) = h.mapped (q + 16 + 8) (omega arith) (omega arith) in
      Returns.mono
        (insert-Chain s (q + 16) {u = u} {v = v} (omega arith) e f h.chain refl (not-listed large))
        λ _ t (r, _). (listed-PageInv t is r, r)
