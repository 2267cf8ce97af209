-- ===== src/Mm/Lists/Unlink.antt =====
-- `check_and_unmap_full_pages` of mm.c takes a page out of the page list.
use uof_ufall.Base.{
  ℕ, ◌+◌, ◌%◌, ◌≡◌, ◌≢◌, ◌⊎◌, refl, false, true, some, List, ◌∷◌, ◌++◌, arith, ◌==◌, if◌then◌else◌,
}
use uof_ufall.Machine.{Ptr, null, Memory, State, write, ok, load, store}
use uof_ufall.Machine.Returns
use uof_ufall.Machine.Returns.{Returns, returns}
use uof_ufall.Mm.Lists.{unlink_page}
use uof_ufall.Mm.Lists.Around.{
  last_or, around, head-mem, head-aligned, null-not-mem, last-aligned, last-not-mem, is_link-append,
  link_of_mem,
}
use uof_ufall.Mm.Lists.Chain.{Chain, has, SameOutside}
use uof_ufall.Mm.Lists.Splice.{Spliced, splice, prev-mapped, head-back, head_after-if, last-link}

-- the memory after the neighbours of an element were joined
joined : Memory → (prev next : Ptr) → Memory
joined m prev next =
    let forward = if prev == null then m else write m (prev + 8) next in
    if next == null then forward else write forward next prev

Spliced-joined :
    (m : Memory) (prev bp next : Ptr)
    → prev % 16 ≡ 0
    → bp % 16 ≡ 0
    → next % 16 ≡ 0
    → Spliced m (joined m prev next) prev bp next
unfolding joined write
Spliced-joined m prev bp next al al' al'' = record {
  fwd = ground arith;
  back = ground arith;
  same = ground arith;
}

module _ (s : State) (prev pc next : Ptr) where
  unlink-joined :
      {v w : ℕ}
      → s.mem pc ≡ some prev
      → s.mem (pc + 8) ≡ some next
      → (prev ≢ null → s.mem (prev + 8) ≡ some v)
      → (next ≢ null → s.mem next ≡ some w)
      → unlink_page pc s
        ≡ ok tt (record s {
          mem = joined s.mem prev next;
          page_list_head = if prev == null then next else s.page_list_head;
        })
  unfolding unlink_page write load store joined
  unlink-joined e f hp hn = ground arith

joined-SameOutside :
    (m : Memory) (xs ys : List Ptr) (next : Ptr)
    → ((next ≡ null) ⊎ (has next ys ≡ true))
    → SameOutside (xs ++ ys) m (joined m (last_or null xs) next)
unfolding joined write
joined-SameOutside m xs ys next h a o =
    ground (arith, is_link-append a xs ys, last-link xs, link_of_mem next ys)

-- The final state of a command that leaves the page list `xs` and changes only its links and its head.
pub record PageListIs (s : State) (xs : List Ptr) (t : State) : Type 0 where
  pub chain : Chain t.mem null t.page_list_head xs
  pub same : SameOutside xs s.mem t.mem
  pub rest : t ≡ record s { mem = t.mem; page_list_head = t.page_list_head }

-- Unlinking a page from anywhere in a well-formed page list ends without a fault, leaves the other
-- pages on the list in their order, and writes nowhere but to their links.
pub unlink-Chain :
    (s : State) (xs ys : List Ptr) (pc : Ptr)
    → Chain s.mem null s.page_list_head (xs ++ pc ∷ ys)
    → Returns (λ _ t. PageListIs s (xs ++ ys) t) (unlink_page pc s)
unlink-Chain s xs ys pc c =
    let (next, r) = around xs c in
    let prev = last_or null xs in
    let al : prev % 16 ≡ 0 = last-aligned xs (pc ∷ ys) c refl in
    let al' = head-aligned r.behind in
    let apart : has prev (pc ∷ ys) ≡ false =
      last-not-mem xs (pc ∷ ys) c (ground (arith, null-not-mem r.behind, r.el.ne_null)) in
    let sp = Spliced-joined s.mem prev pc next al r.el.aligned al' in
    Returns.of_eq tt _
      (unlink-joined s prev pc next r.back r.fwd (prev-mapped xs ys c) (head-back r.behind))
      (record {
        chain =
            rw (head_after-if next xs (pc ∷ ys) c)
              (splice sp al r.el.aligned al' xs ys c r.fwd refl (ground arith) (head-mem r.behind));
        same = joined-SameOutside s.mem xs ys next (head-mem r.behind);
        rest = refl;
      })
