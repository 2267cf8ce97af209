-- ===== src/Mm/Lists/Remove.antt =====
-- `remove_free_block` of mm.c takes a block out of the free list, wherever it stands; the same
-- links are written for a page that leaves the page list.
use uof_ufall.Base.{
  ℕ, ◌+◌, ◌%◌, ◌≡◌, ◌≢◌, ◌⊎◌, refl, false, true, some, List, ◌∷◌, ◌++◌, arith, ◌==◌, if◌then◌else◌,
}
use uof_ufall.Machine.{Ptr, null, Memory, State, write, ok, load, store}
use uof_ufall.Machine.Returns
use uof_ufall.Machine.Returns.{Returns, returns}
use uof_ufall.Mm.Lists.{remove_free_block}
use uof_ufall.Mm.Lists.Chain.{Chain, has, SameOutside}
use uof_ufall.Mm.Lists.Insert.{FreeListIs}
use uof_ufall.Mm.Lists.Around.{
  last_or, around, head-mem, head-aligned, null-not-mem, last-aligned, last-not-mem, is_link-append,
  link_of_mem,
}
use uof_ufall.Mm.Lists.Splice.{Spliced, splice, head-back, prev-mapped, head_after-if, last-link}

-- the memory after `bp` was unlinked and its own links cleared
pub unlinked : Memory → (prev bp next : Ptr) → Memory
unlinked m prev bp next =
    let joined = if prev == null then m else write m (prev + 8) next in
    let back = if next == null then joined else write joined next prev in
    write (write back bp null) (bp + 8) null

Spliced-unlinked :
    (m : Memory) (prev bp next : Ptr)
    → prev % 16 ≡ 0
    → bp % 16 ≡ 0
    → next % 16 ≡ 0
    → prev ≢ bp
    → next ≢ bp
    → Spliced m (unlinked m prev bp next) prev bp next
unfolding unlinked write
Spliced-unlinked m prev bp next al al' al'' ne ne' = record {
  fwd = ground arith;
  back = ground arith;
  same = ground arith;
}

unlinked-cleared :
    (m : Memory) (prev bp next : Ptr)
    → (unlinked m prev bp next bp ≡ some null) × (unlinked m prev bp next (bp + 8) ≡ some null)
unfolding unlinked write
unlinked-cleared m prev bp next = ground arith

module _ (s : State) (prev bp next : Ptr) where
  remove-unlinked :
      {v w : ℕ}
      → s.mem bp ≡ some prev
      → s.mem (bp + 8) ≡ some next
      → (prev ≢ null → s.mem (prev + 8) ≡ some v)
      → (next ≢ null → s.mem next ≡ some w)
      → remove_free_block bp s
        ≡ ok tt (record s {
          mem = unlinked s.mem prev bp next;
          free_list_head = if prev == null then next else s.free_list_head;
        })
  unfolding remove_free_block write load store unlinked
  remove-unlinked e f hp hn = ground arith

unlinked-SameOutside :
    (m : Memory) (xs ys : List Ptr) (bp next : Ptr)
    → ((next ≡ null) ⊎ (has next ys ≡ true))
    → SameOutside (xs ++ bp ∷ ys) m (unlinked m (last_or null xs) bp next)
unfolding unlinked write
unlinked-SameOutside m xs ys bp next h a o =
    ground (arith, is_link-append a xs (bp ∷ ys), last-link xs, link_of_mem next ys)

-- Removing a block from anywhere in a well-formed free list ends without a fault. It leaves the
-- other blocks on the list in their order and writes nowhere but to the links of the list; the
-- links of the block itself are null afterwards.
pub remove-Chain :
    (s : State) (xs ys : List Ptr) (bp : Ptr)
    → Chain s.mem null s.free_list_head (xs ++ bp ∷ ys)
    → Returns
        (λ _ t.
          FreeListIs s (xs ++ ys) (xs ++ bp ∷ ys) t
          × (t.mem bp ≡ some null)
          × (t.mem (bp + 8) ≡ some null))
        (remove_free_block bp s)
remove-Chain s xs ys bp c =
    let (next, r) = around xs c in
    let prev = last_or null xs in
    let al : prev % 16 ≡ 0 = last-aligned xs (bp ∷ ys) c refl in
    let al' = head-aligned r.behind in
    let apart : has prev (bp ∷ ys) ≡ false =
      last-not-mem xs (bp ∷ ys) c (ground (arith, null-not-mem r.behind, r.el.ne_null)) in
    let sp =
      Spliced-unlinked s.mem prev bp next al r.el.aligned al' (ground arith)
        (ground (arith, head-mem r.behind, r.out', r.el.ne_null)) in
    Returns.of_eq tt _
      (remove-unlinked s prev bp next r.back r.fwd (prev-mapped xs ys c) (head-back r.behind))
      (let cleared = unlinked-cleared s.mem prev bp next in
        (
          record {
            chain = rw (head_after-if next xs (bp ∷ ys) c) (
                splice sp al r.el.aligned al' xs ys c r.fwd refl (ground arith)
                  (head-mem r.behind));
            same = unlinked-SameOutside s.mem xs ys bp next (head-mem r.behind);
            rest = refl;
          },
          cleared.0,
          cleared.1,
        ))
