-- ===== src/Mm/Heap/Page.antt =====
-- A page with a region taken out of its tiling: what `mm_malloc` and `mm_free` work on between the
-- moment a block leaves the free list and the moment it is used or listed again.
use uof_ufall.Base.{
  ℕ, ◌+◌, ◌%◌, ◌≤◌, ◌<◌, ◌≡◌, true, false, ◌||◌, some, List, ◌∷◌, arith, ◌⊎◌, inl, inr, Bool-cases,
}
use native.Mathlib.Decide.{ℕ_discrete}
use uof_ufall.Machine.{Ptr, null, State, Memory}
use uof_ufall.Mm.Blocks.Elsewhere.{Elsewhere}
use uof_ufall.Mm.Blocks.Fields.{Mapped}
use uof_ufall.Mm.Blocks.Footer.{PageList, PageAt}
use uof_ufall.Mm.Heap.{Block, Tiles, frees}
use uof_ufall.Mm.Heap.Keeps.{KeepsHole}
use uof_ufall.Mm.Heap.Tiles.{frees-bounds}
use uof_ufall.Mm.Lists.Chain.{Chain, has, is_link, nil, cons}
use uof_ufall.Mm.Lists.Chunk.{is_page_word}
use uof_ufall.Mm.Lists.Around.{link_of_mem}

-- the region of `n` bytes at `q` is in nobody's hands
pub record Hole (s : State) (fuel : ℕ) (l : PageList) (pc end : Ptr) (xs : List Block) (q n : ℕ)
    (ys : List Block) (fl : List Ptr) : Type 0 where
  pub here : PageAt s fuel l pc end
  pub aligned : pc % 16 ≡ 0
  pub mapped : Mapped s.mem pc end
  pub front : Tiles s.mem (pc + 32) q xs
  pub back : Tiles s.mem (q + n) end ys
  pub chain : Chain s.mem null s.free_list_head fl
  pub member :
      (a : ℕ)
      → pc ≤ a
      → a < end
      → has a fl ≡ (has a (frees (pc + 32) xs) || has a (frees (q + n) ys))
  pub links : (a : ℕ) → is_link a fl ≡ true → is_page_word a l.pages ≡ false
  pub elsewhere : Elsewhere l.from l.free (pc + 32) end s fl
  pub keeps : KeepsHole s l pc xs q n ys fl

-- a link belongs to an element
pub record LinkOf (a : ℕ) (xs : List Ptr) : Type 0 where
  pub element : Ptr
  pub listed : has element xs ≡ true
  pub aligned : element % 16 ≡ 0
  pub place : (a ≡ element) ⊎ (a ≡ element + 8)

LinkOf-cons : (a p : ℕ) (xs : List Ptr) → LinkOf a xs → LinkOf a (p ∷ xs)
LinkOf-cons a p xs l = record {
  element = l.element;
  listed = ground (arith, l.listed);
  aligned = l.aligned;
  place = l.place;
}

pub link-element :
    {m : Memory} {before p : Ptr} {xs : List Ptr} (a : ℕ)
    → Chain m before p xs
    → is_link a xs ≡ true
    → LinkOf a xs
link-element a nil i = cc
link-element a (cons {p} {q} {xs} el out back fwd c) i = elim (Bool-cases (is_link a xs)) [
  | inl later ↦ LinkOf-cons a p xs (link-element a c later)
  | inr here ↦ record {
    element = p;
    listed = ground arith;
    aligned = el.aligned;
    place = ground arith;
  }
]

-- the links of a chain are mapped
pub Chain-mapped :
    {m : Memory} {before p : Ptr} {xs : List Ptr} (a : ℕ)
    → Chain m before p xs
    → is_link a xs ≡ true
    → (v : ℕ) × (m a ≡ some v)
Chain-mapped a nil i = cc
Chain-mapped a (cons {before} {p} {q} {xs} el out back fwd c) i = elim (Bool-cases (is_link a xs)) [
  | inl later ↦ Chain-mapped a c later
  | inr first ↦ elim (ℕ_discrete a p) [ yes e ↦ (before, ground arith) | no ne ↦ (q, ground arith) ]
]

module _ {s : State} {fuel : ℕ} {l : PageList} {pc end : Ptr} {xs : List Block} {q n : ℕ}
    {ys : List Block} {fl : List Ptr} (h : Hole s fuel l pc end xs q n ys fl) where
  -- a link inside of the page is one of a free block on either side of the region
  pub Hole-link :
      (a : ℕ)
      → pc ≤ a
      → a < end
      → is_link a fl ≡ true
      → ((is_link a (frees (pc + 32) xs) ≡ true) ⊎ (is_link a (frees (q + n) ys) ≡ true))
  Hole-link a low high i =
      let k = link-element a h.chain i in
      ground (
        arith,
        h.aligned,
        k.place,
        k.aligned,
        k.listed,
        h.member k.element,
        link_of_mem k.element (frees (pc + 32) xs),
        link_of_mem k.element (frees (q + n) ys),
      )

  -- so it keeps clear of the region
  pub Hole-clear :
      (a : ℕ) → pc ≤ a → a < end → is_link a fl ≡ true → ((a + 24 ≤ q) ⊎ (q + n + 16 ≤ a))
  Hole-clear a low high i = elim (Hole-link a low high i) [
    | inl f ↦ ground (arith, frees-bounds s.mem (pc + 32) q xs a h.front f)
    | inr b ↦ ground (arith, frees-bounds s.mem (q + n) end ys a h.back b)
  ]
