-- ===== src/Mm/Arena/Sweep.antt =====
-- `check_and_unmap_full_pages` of mm.c on a well-formed heap.
use uof_ufall.Base.{
  ℕ, zero, suc, ◌+◌, ◌-◌, ◌<◌, ◌≡◌, ◌≢◌, refl, Bool, true, false, not, some, List, [], ◌∷◌, ◌++◌,
  arith, ◌∙◌, sym, subst, ap, inl, inr, Bool-cases, length, if◌then◌else◌, ne→==, sub64, ◌&&◌, ◌||◌,
}
use mathlib.Core.List.{append_assoc}
use uof_ufall.Machine.{Ptr, null, State, Memory, Os, ok, load, within, ◌>>◌}
use uof_ufall.Machine.Returns
use uof_ufall.Machine.Returns.{Returns, returns}
use uof_ufall.Mm.{fills_page, unmap_full_loop, check_and_unmap_full_pages}
use uof_ufall.Mm.Layout.{get_alloc, block_size}
use uof_ufall.Mm.Arena.{HeapInv}
use uof_ufall.Mm.Arena.Clear.{Clear, Clear-links, SparedAt}
use uof_ufall.Mm.Arena.Detach.{detach-Detached, page_self, page-mem}
use uof_ufall.Mm.Arena.Drop.{give_back-HeapInv}
use uof_ufall.Mm.Arena.Taken.{Taken, StaysNone, Taken-then, Taken-from, Taken-ext}
use uof_ufall.Mm.Heap.{Block, block, Tiles, PageInv}
use uof_ufall.Mm.Heap.Tiles.{Tiles-le}
use uof_ufall.Memlib.{mem_unmap}
use uof_ufall.Mm.Lists.{remove_free_block, unlink_page}
use uof_ufall.Mm.Lists.Chain.{Chain, has, nil, cons}
use uof_ufall.Mm.Lists.Chunk.{Pages}

-- a page with one block, which is free
unfoldable pub is_full : List Block → Bool
is_full [] = false
is_full (b ∷ []) = not b.used
is_full (b ∷ c ∷ bs) = false

-- the pages that are not
unfoldable pub kept_pages : (Ptr → List Block) → List Ptr → List Ptr
unfolding is_full
kept_pages blocks [] = []
kept_pages blocks (p ∷ ps) =
    if is_full (blocks p) then kept_pages blocks ps else p ∷ kept_pages blocks ps

pub is_full-shape : (bs : List Block) → is_full bs ≡ true → (n : ℕ) × (bs ≡ block n false ∷ [])
unfolding is_full
is_full-shape [] h = cc
is_full-shape (b ∷ []) h = (b.size, ground arith)
is_full-shape (b ∷ c ∷ bs) h = cc

-- the test of the loop
fills_page-ok :
    (s : State) (p end : Ptr) (bs : List Block)
    → p < end
    → Tiles s.mem p end bs
    → fills_page p (end - p) s ≡ ok (is_full bs) s
unfolding fills_page get_alloc block_size load is_full
fills_page-ok s p end [] lt t = absurd (omega arith)
fills_page-ok s p end (b ∷ []) lt t = ground (arith, t.0.mark, t.0.header, t.0.flag)
fills_page-ok s p end (b ∷ c ∷ bs) lt t =
    let le = Tiles-le s.mem (p + b.size + c.size) end bs t.1.1 in
    ground (arith, t.0.mark, t.0.header, t.0.flag, t.1.0.large)

-- the first of the pages, or null
abbrev head_or_null : List Ptr → Ptr
head_or_null [] = null
head_or_null (p ∷ ps) = p

-- where the page list goes on behind a page
record At (m : Memory) (pc : Ptr) (vs : List Ptr) : Type 0 where
  ne_null : pc ≢ null
  next : m (pc + 8) ≡ some (head_or_null vs)

chain-head_or_null :
    {m : Memory} {before p : Ptr} (ps : List Ptr) → Chain m before p ps → p ≡ head_or_null ps
chain-head_or_null [] nil = refl
chain-head_or_null (p ∷ ps) (cons el out back fwd c) = refl

chain-At :
    {m : Memory} {before p : Ptr} (us : List Ptr) (pc : Ptr) (vs : List Ptr)
    → Chain m before p (us ++ pc ∷ vs)
    → At m pc vs
chain-At [] pc vs (cons el out back fwd c) = record {
  ne_null = el.ne_null;
  next = fwd ∙ ap some (chain-head_or_null vs c);
}
chain-At (u ∷ us) pc vs (cons el out back fwd c) = chain-At us pc vs c

-- the addresses of the pages that are one free block
unfoldable pub dropped : (Ptr → List Block) → (Ptr → Ptr) → List Ptr → ℕ → Bool
unfolding is_full
dropped blocks ends [] a = false
dropped blocks ends (p ∷ ps) a =
    (is_full (blocks p) && within p (ends p - p) a) || dropped blocks ends ps a

-- what a step leaves: the heap with the pages `ps`, the bytes of `keep` as they were,
-- and nothing at the addresses of `gone`
abbrev Left :
    (keep gone : ℕ → Bool)
    → ℕ
    → (Ptr → Ptr)
    → List Ptr
    → (Ptr → List Block)
    → State
    → State
    → Type 0
Left keep gone fuel ends ps blocks s t =
    (gl : List Ptr) × HeapInv t fuel ends ps blocks gl
    × ((a : ℕ) → keep a ≡ true → t.mem a ≡ s.mem a)
    × Taken gone s t
    × StaysNone s t

module _ (os : Os) (succeeds : (p size : ℕ) → os.munmap_succeeds p size ≡ true) {fuel : ℕ}
    {ends : Ptr → Ptr} {blocks : Ptr → List Block} (keep : ℕ → Bool) where
  drop_full-HeapInv :
      {s : State} (us : List Ptr) (pc : Ptr) (vs : List Ptr) {fl : List Ptr}
      → HeapInv s fuel ends (us ++ pc ∷ vs) blocks fl
      → Clear keep (us ++ pc ∷ vs) blocks
      → (n : ℕ) → blocks pc ≡ block n false ∷ []
      → Returns
          (λ _ t. Left keep (within pc (ends pc - pc)) fuel ends (us ++ vs) blocks s t)
          ((remove_free_block (pc + 32 + 16) >> (unlink_page pc >> mem_unmap os pc (ends pc - pc)))
            s)
  drop_full-HeapInv {s} us pc vs i clear n shape =
      let own = page_self pc us vs in
      let tiles : Tiles s.mem (pc + 32) (ends pc) (block n false ∷ []) =
        subst (Tiles s.mem (pc + 32) (ends pc)) shape (PageInv.tiles (i.page pc own)) in
      let filled : pc + 32 + n ≡ ends pc = tiles.1 in
      let out : (a : ℕ) → keep a ≡ true → within pc (ends pc - pc) a ≡ false = λ a k.
        let (header, spared) = clear pc own a k in
        let alone = subst (SparedAt a (pc + 32)) shape spared in
        ground (arith, header, alone.0 refl, filled) in
      Returns.bind (detach-Detached us pc vs i n shape keep clear)
        λ _ t (gl, d, same, stays, table).
          Returns.mono (give_back-HeapInv os d (succeeds pc (ends pc - pc)))
            λ _ u (j, words, taken, later). (
              gl,
              j,
              λ a k.
                  words a (out a k) (Clear-links a (us ++ pc ∷ vs) λ p m. (clear p m a k).0)
                  ∙ same a k,
              Taken-from table taken,
              λ a out. later a (stays a out),
            )

  sweep-HeapInv :
      (rounds : ℕ) {s : State} (us vs : List Ptr) {fl : List Ptr}
      → HeapInv s fuel ends (us ++ vs) blocks fl
      → Clear keep (us ++ vs) blocks
      → length vs < rounds
      → Returns
          (λ _ t.
            Left keep (dropped blocks ends vs) fuel ends (us ++ kept_pages blocks vs) blocks s t)
          (unmap_full_loop os rounds (head_or_null vs) s)
  unfolding unmap_full_loop kept_pages dropped
  sweep-HeapInv zero us vs i clear enough = absurd (omega arith)
  sweep-HeapInv (suc rounds) us [] {fl} i clear enough =
      returns
        (fl, i, λ a k. refl, record { table = λ q. refl; words = λ a out. cc out }, λ a out. out)
  sweep-HeapInv (suc rounds) {s} us (pc ∷ vs) {fl} i clear enough =
      let own : has pc (us ++ pc ∷ vs) ≡ true = page_self pc us vs in
      let at = chain-At us pc vs (Pages.chain i.listed) in
      let r = i.region pc own in
      let below = r.below in
      let bound = r.bound in
      let rest : sub64 (ends pc - pc) 32 ≡ ends pc - (pc + 32) = omega arith in
      let test =
        fills_page-ok s (pc + 32) (ends pc) (blocks pc) below (PageInv.tiles (i.page pc own)) in
      rw (ne→== pc null at.ne_null) (
        Returns.load_then s (pc + 8) _ at.next (
          Returns.load_then s (pc + 16) _ r.size (
            rw rest (
              Returns.eq_then _ _ _ test (elim (Bool-cases (is_full (blocks pc))) [
                | inl full ↦
                    let (n, shape) = is_full-shape (blocks pc) full in
                    rw full (
                      Returns.bind (drop_full-HeapInv us pc vs i clear n shape)
                        λ _ u (gl, j, same, taken, stays).
                          Returns.mono
                            (sweep-HeapInv rounds us vs j (λ p m. clear p (page-mem p pc us vs m))
                              (omega arith))
                            λ _ t (kl, k, after, others, stays'). (
                              kl,
                              k,
                              λ a h. after a h ∙ same a h,
                              Taken-then taken others stays' λ a. rw full refl,
                              λ a out. stays' a (stays a out),
                            ))
                | inr open' ↦
                    let i' : HeapInv s fuel ends ((us ++ pc ∷ []) ++ vs) blocks fl =
                      rw append_assoc i in
                    let clear' : Clear keep ((us ++ pc ∷ []) ++ vs) blocks =
                      rw append_assoc clear in
                    let rest' : Returns
                        (λ _ t.
                          Left keep (dropped blocks ends vs) fuel ends
                            (us ++ pc ∷ kept_pages blocks vs) blocks s t)
                        (unmap_full_loop os rounds (head_or_null vs) s) =
                      rw append_assoc at
                        (sweep-HeapInv rounds (us ++ pc ∷ []) vs i' clear' (omega arith)) in
                    rw open' (
                      Returns.mono rest' λ _ t (kl, k, same, taken, stays).
                        (kl, k, same, Taken-ext taken (λ a. rw open' refl), stays))
              ])))))

  -- bytes outside of headers and free blocks stay as they are
  pub check_and_unmap-Left :
      {s : State} {pages fl : List Ptr}
      → HeapInv s fuel ends pages blocks fl
      → Clear keep pages blocks
      → Returns
          (λ _ t.
            (gl : List Ptr) × HeapInv t fuel ends (kept_pages blocks pages) blocks gl
            × ((a : ℕ) → keep a ≡ true → t.mem a ≡ s.mem a)
            × Taken (dropped blocks ends pages) s t
            × StaysNone s t)
          (check_and_unmap_full_pages os fuel s)
  unfolding check_and_unmap_full_pages
  check_and_unmap-Left {s} {pages} i clear =
      subst
        (λ z.
          Returns
            (λ _ t.
              Left keep (dropped blocks ends pages) fuel ends (kept_pages blocks pages) blocks s t)
            (unmap_full_loop os fuel z s))
        (sym (chain-head_or_null pages (Pages.chain i.listed)))
        (sweep-HeapInv fuel [] pages i clear i.enough)

module _ (os : Os) (succeeds : (p size : ℕ) → os.munmap_succeeds p size ≡ true) {fuel : ℕ}
    {ends : Ptr → Ptr} {blocks : Ptr → List Block} where
  -- On a well-formed heap, where munmap succeeds, `check_and_unmap_full_pages` ends without fault or
  -- abort. The heap is well-formed afterwards, with the pages that have a used block or several
  -- blocks; they stay in their order, with their blocks. The pages that are one free block are
  -- unmapped: nothing is mapped at their addresses, in memory or in the page table, which is
  -- as before at all other addresses.
  pub check_and_unmap-HeapInv :
      {s : State} {pages fl : List Ptr}
      → HeapInv s fuel ends pages blocks fl
      → Returns
          (λ _ t.
            (gl : List Ptr) × HeapInv t fuel ends (kept_pages blocks pages) blocks gl
            × Taken (dropped blocks ends pages) s t)
          (check_and_unmap_full_pages os fuel s)
  check_and_unmap-HeapInv i =
      Returns.mono (check_and_unmap-Left os succeeds (λ a. false) i λ p m a k. cc k)
        λ _ t (gl, j, same, taken, stays). (gl, j, taken)
