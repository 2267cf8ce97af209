-- ===== src/Mm/Arena/Enough.antt =====
-- Fuel that is enough for every heap: the elements of its lists are different addresses.
use uof_ufall.Base.{ℕ, ◌^◌, ◌≤◌, List, arith, length}
use uof_ufall.Base.Distinct.{Distinct, Distinct-length}
use uof_ufall.Machine.{Ptr, Memory, State}
use uof_ufall.Mm.Arena.{HeapInv, Region}
use uof_ufall.Mm.Heap.{Block}
use uof_ufall.Mm.Lists.Chain.{Chain, nil, cons}
use uof_ufall.Mm.Lists.Chunk.{Pages}

Chain-Distinct : {m : Memory} {before p : Ptr} {xs : List Ptr} → Chain m before p xs → Distinct xs
Chain-Distinct nil = tt
Chain-Distinct (cons el out back fwd c) = (out, Chain-Distinct c)

module _ {s : State} {fuel : ℕ} {ends : Ptr → Ptr} {pages : List Ptr} {blocks : Ptr → List Block}
    {fl : List Ptr} (i : HeapInv s fuel ends pages blocks fl) where
  pub length-free : length fl ≤ 2 ^ 64
  length-free =
      Distinct-length (2 ^ 64) fl (Chain-Distinct i.chain) λ a h.
        let (pc, own, low, high) = i.owner a h in omega (arith, Region.bound (i.region pc own))

  pub length-pages : length pages ≤ 2 ^ 64
  length-pages =
      Distinct-length (2 ^ 64) pages (Chain-Distinct (Pages.chain i.listed))
        λ pc own. omega (arith, Region.below (i.region pc own), Region.bound (i.region pc own))
