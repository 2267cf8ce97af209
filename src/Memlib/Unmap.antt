-- ===== src/Memlib/Unmap.antt =====
-- `mem_unmap` of memlib.c gives a region back.
use uof_ufall.Base.{
  ap, ℕ, zero, suc, ◌+◌, ◌-◌, ◌*◌, ◌/◌, ◌%◌, ◌^◌, ◌≤◌, ◌<◌, ◌≡◌, refl, true, false, none, some,
  Option, arith, if◌then◌else◌, ◌∙◌,
}
use uof_ufall.Machine.{Ptr, ok, State, Os, within, munmap}
use uof_ufall.Machine.Returns
use uof_ufall.Machine.Returns.{Returns, returns}
use uof_ufall.Memlib.Table.{TableInv, unmap-TableInv}
use uof_ufall.Memlib.{unmap_loop, mem_unmap, modify, sub_page_count}
use uof_ufall.Pagemap.{Pagemap, pagemap_modify, pagemap_is_mapped}
use uof_ufall.Pagemap.Laws.{is_mapped-modify, unmap-aborts_iff, same_page}

-- every address of a region is on a mapped page
abbrev pub RegionMapped : Ptr → ℕ → Pagemap → Type 0
RegionMapped p size m = (q : ℕ) → p ≤ q → q < p + size → pagemap_is_mapped q m ≡ true

-- a mapped page can be unmapped
unmap-some :
    (p : ℕ) (m : Pagemap)
    → pagemap_is_mapped p m ≡ true
    → (m' : Pagemap) × (pagemap_modify p false m ≡ some m')
unmap-some p m h = go (pagemap_modify p false m) refl
  where
    go :
        (o : Option Pagemap)
        → pagemap_modify p false m ≡ o
        → (m' : Pagemap) × (pagemap_modify p false m ≡ some m')
    go none e = absurd (ground (arith, h, (unmap-aborts_iff p m).0 e))
    go (some m') e = (m', e)

modify-ok :
    (p : ℕ) (s : State) (m' : Pagemap)
    → pagemap_modify p false s.pagemap ≡ some m'
    → modify p false s ≡ ok tt (record s { pagemap = m' })
unfolding modify
modify-ok p s m' e = rw (e, modify) refl

module _ (os : Os) where
  unmap_loop-ok :
      (n p : ℕ) (s : State)
      → 0 < p
      → p % 4096 ≡ 0
      → RegionMapped p (n * 4096) s.pagemap
      → Returns
          (λ _ t.
            ((q : ℕ)
              → pagemap_is_mapped q t.pagemap
                ≡ (if within p (n * 4096) q then false else pagemap_is_mapped q s.pagemap))
            × (t.mem ≡ s.mem)
            × ((t.page_count + n) % 2 ^ 32 ≡ s.page_count % 2 ^ 32)
            × (t ≡ record s { mem = t.mem; pagemap = t.pagemap; page_count = t.page_count })
            × (TableInv s.pagemap → TableInv t.pagemap))
          (unmap_loop os n p s)
  unfolding unmap_loop sub_page_count
  unmap_loop-ok zero p s pos al mapped =
      returns (λ q. ground arith, refl, omega arith, refl, λ i. i)
  unmap_loop-ok (suc n) p s pos al mapped =
      let here = mapped p (omega arith) (omega arith) in
      let (m', e) = unmap-some p s.pagemap here in
      let s' = record s { pagemap = m'; page_count = (s.page_count + 2 ^ 32 - 1) % 2 ^ 32 } in
      let after : (q : ℕ)
          → pagemap_is_mapped q m'
            ≡ (if same_page q p then false else pagemap_is_mapped q s.pagemap) =
        λ q. is_mapped-modify p q false s.pagemap m' (omega arith) e in
      let rest =
        unmap_loop-ok n (p + 4096) s' (omega arith) (omega arith)
          λ q low high. after q ∙ ground (arith, mapped q) in
      rw (here, modify-ok p s m' e)
        (Returns.mono rest λ _ t (flags, same, count, kept, list). (
          λ q. flags q ∙ ground (arith, after q),
          same,
          omega arith,
          kept,
          λ i. list (unmap-TableInv p s.pagemap m' i e),
        ))

  -- the next theorem, with the list of the page table
  mem_unmap-run :
      (p size : ℕ) (s : State)
      → 0 < p
      → p % 4096 ≡ 0
      → size % 4096 ≡ 0
      → RegionMapped p size s.pagemap
      → os.munmap_succeeds p size ≡ true
      → Returns
          (λ _ t.
            ((q : ℕ)
              → pagemap_is_mapped q t.pagemap
                ≡ (if within p size q then false else pagemap_is_mapped q s.pagemap))
            × ((a : ℕ) → t.mem a ≡ (if within p size a then none else s.mem a))
            × ((t.page_count + size / 4096) % 2 ^ 32 ≡ s.page_count % 2 ^ 32)
            × (t ≡ record s { mem = t.mem; pagemap = t.pagemap; page_count = t.page_count })
            × (TableInv s.pagemap → TableInv t.pagemap))
          (mem_unmap os p size s)
  unfolding mem_unmap munmap
  mem_unmap-run p size s pos al al' mapped succeeds =
      let whole : size / 4096 * 4096 ≡ size = omega arith in
      let loop = unmap_loop-ok (size / 4096) p s pos al λ q low high. mapped q low (omega arith) in
      rw (al, al')
        (Returns.bind loop λ _ t (flags, same, count, kept, list). rw succeeds (
          returns (
            λ q. flags q ∙ rw whole refl,
            λ a. rw same refl,
            count,
            ap (λ (v : State). record v { mem = λ a. if within p size a then none else t.mem a })
                kept,
            list,
          )))

  -- For a region of whole pages that starts at a positive multiple of the page size and is mapped
  -- in the table with every page, where munmap succeeds, `mem_unmap` ends without abort. Its pages
  -- are unmapped in the table and its words are gone from memory, other pages and words are as
  -- before, the page count is lower by the region's pages, modulo 2 ^ 32, and the other variables are
  -- the same.
  pub mem_unmap-ok :
      (p size : ℕ) (s : State)
      → 0 < p
      → p % 4096 ≡ 0
      → size % 4096 ≡ 0
      → RegionMapped p size s.pagemap
      → os.munmap_succeeds p size ≡ true
      → Returns
          (λ _ t.
            ((q : ℕ)
              → pagemap_is_mapped q t.pagemap
                ≡ (if within p size q then false else pagemap_is_mapped q s.pagemap))
            × ((a : ℕ) → t.mem a ≡ (if within p size a then none else s.mem a))
            × ((t.page_count + size / 4096) % 2 ^ 32 ≡ s.page_count % 2 ^ 32)
            × (t ≡ record s { mem = t.mem; pagemap = t.pagemap; page_count = t.page_count }))
          (mem_unmap os p size s)
  mem_unmap-ok p size s pos al al' mapped succeeds =
      Returns.mono (mem_unmap-run p size s pos al al' mapped succeeds)
        λ _ t (flags, mem, count, kept, list). (flags, mem, count, kept)

  -- the list stays that of the mapped entries
  pub mem_unmap-TableInv :
      (p size : ℕ) (s : State)
      → 0 < p
      → p % 4096 ≡ 0
      → size % 4096 ≡ 0
      → RegionMapped p size s.pagemap
      → os.munmap_succeeds p size ≡ true
      → TableInv s.pagemap
      → Returns
          (λ _ t.
            ((q : ℕ)
              → pagemap_is_mapped q t.pagemap
                ≡ (if within p size q then false else pagemap_is_mapped q s.pagemap))
            × ((a : ℕ) → t.mem a ≡ (if within p size a then none else s.mem a))
            × (t ≡ record s { mem = t.mem; pagemap = t.pagemap; page_count = t.page_count })
            × TableInv t.pagemap)
          (mem_unmap os p size s)
  mem_unmap-TableInv p size s pos al al' mapped succeeds i =
      Returns.mono (mem_unmap-run p size s pos al al' mapped succeeds)
        λ _ t (flags, mem, count, kept, list). (flags, mem, kept, list i)
