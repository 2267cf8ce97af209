-- ===== src/Memlib/Map.antt =====
-- `mem_map` of memlib.c obtains a region.
use uof_ufall.Base.{
  ℕ, zero, suc, ◌+◌, ◌-◌, ◌*◌, ◌/◌, ◌%◌, ◌^◌, ◌≤◌, ◌<◌, ◌≡◌, refl, Bool, true, false, none, some,
  Option, arith, if◌then◌else◌, ◌∙◌, bit_and, ◌==◌, ap, Bool-cases, inl, inr,
}
use uof_ufall.Machine.{Ptr, ok, pure, ◌>>◌, State, Os, within, mmap, Memory}
use uof_ufall.Machine.Returns
use uof_ufall.Machine.Returns.{Returns, returns}
use uof_ufall.Memlib.{map_loop, mem_map, decoy, modify, add_page_count}
use uof_ufall.Memlib.Table.{TableInv, map-TableInv}
use uof_ufall.Pagemap.{Pagemap, pagemap_modify, pagemap_is_mapped}
use uof_ufall.Pagemap.Laws.{is_mapped-modify, same_page}

-- no word of the region is mapped
abbrev pub Vacant : Ptr → ℕ → Memory → Type 0
Vacant p size m = (a : ℕ) → p ≤ a → a < p + size → m a ≡ none

-- `mem_map` maps a page that it leaves alone, since the counter has become a power of two, or zero
unfoldable pub decoy_due : State → Bool
decoy_due s =
    bit_and ((s.activity_counter + 1) % 2 ^ 32)
      (((s.activity_counter + 1) % 2 ^ 32 + 2 ^ 32 - 1) % 2 ^ 32)
    == 0

-- When `mem_map` gets a region in the state `s`: mmap answers the request with the region at `p`,
-- and as it documents, the region starts at a page, is not at null, ends within the address space,
-- and covers nothing that is mapped (`spare` says the last of a decoy's page). The field `unmapped`
-- is no promise of mmap but a condition on the program's own table: no page of the region is recorded
-- there, so `pagemap_modify` does not abort.
pub record Granted (os : Os) (size : ℕ) (s : State) (p : Ptr) : Type 0 where
  pub answer : os.mmap_answer (if decoy_due s then s.mmap_calls + 1 else s.mmap_calls) size ≡ some p
  pub positive : 0 < p
  pub aligned : p % 4096 ≡ 0
  pub bound : p + size ≤ 2 ^ 64
  pub vacant : Vacant p size s.mem
  pub unmapped : (q : ℕ) → p ≤ q → q < p + size → pagemap_is_mapped q s.pagemap ≡ false
  pub spare : (q : Ptr) → os.mmap_answer s.mmap_calls 4096 ≡ some q → Vacant q 4096 s.mem

-- the state after a region was obtained
pub record Obtained (s : State) (size : ℕ) (p : Ptr) (t : State) : Type 0 where
  pub zeros : (a : ℕ) → p ≤ a → a < p + size → t.mem a ≡ some 0
  pub kept : (a v : ℕ) → s.mem a ≡ some v → t.mem a ≡ some v
  pub flags :
      (q : ℕ)
      → pagemap_is_mapped q t.pagemap
        ≡ (if within p size q then true else pagemap_is_mapped q s.pagemap)
  pub list : TableInv t.pagemap
  pub count : t.page_count % 2 ^ 32 ≡ (s.page_count + size / 4096) % 2 ^ 32
  pub free_head : t.free_list_head ≡ s.free_list_head
  pub page_head : t.page_list_head ≡ s.page_list_head

modify-ok :
    (p : ℕ) (s : State) (m' : Pagemap)
    → pagemap_modify p true s.pagemap ≡ some m'
    → modify p true s ≡ ok tt (record s { pagemap = m' })
unfolding modify
modify-ok p s m' e = rw (e, modify) refl

map_loop-ok :
    (os : Os) (n p : ℕ) (s : State)
    → 0 < p
    → p + n * 4096 ≤ 2 ^ 64
    → p % 4096 ≡ 0
    → ((q : ℕ) → p ≤ q → q < p + n * 4096 → pagemap_is_mapped q s.pagemap ≡ false)
    → TableInv s.pagemap
    → Returns
        (λ _ t.
          ((q : ℕ)
            → pagemap_is_mapped q t.pagemap
              ≡ (if within p (n * 4096) q then true else pagemap_is_mapped q s.pagemap))
          × (t.page_count % 2 ^ 32 ≡ (s.page_count + n) % 2 ^ 32)
          × (t ≡ record s { pagemap = t.pagemap; page_count = t.page_count })
          × TableInv t.pagemap)
        (map_loop os n p s)
unfolding map_loop add_page_count
map_loop-ok os zero p s pos high al free i = returns (λ q. ground arith, omega arith, refl, i)
map_loop-ok os (suc n) p s pos high al free i =
    let (m', e, i') =
      map-TableInv p s.pagemap i (omega arith) (omega arith) (free p (omega arith) (omega arith)) in
    let s' = record s { pagemap = m'; page_count = (s.page_count + 1) % 2 ^ 32 } in
    let after : (q : ℕ)
        → pagemap_is_mapped q m' ≡ (if same_page q p then true else pagemap_is_mapped q s.pagemap) =
      λ q. is_mapped-modify p q true s.pagemap m' (omega arith) e in
    let rest =
      map_loop-ok os n (p + 4096) s' (omega arith) (omega arith) (omega arith)
        (λ q low high. after q ∙ ground (arith, free q)) i' in
    rw (modify-ok p s m' e) (
      Returns.mono rest λ _ t (flags, count, kept, list).
        (λ q. flags q ∙ ground (arith, after q), omega arith, kept, list))

-- the counter has one more activity
abbrev counted : State → State
counted s = record s { activity_counter = (s.activity_counter + 1) % 2 ^ 32 }

mmap-ok :
    (os : Os) (size : ℕ) (s : State) (p : Ptr)
    → os.mmap_answer s.mmap_calls size ≡ some p
    → mmap os size s
      ≡ ok (some p) (record s {
        mem = λ a. if within p size a then some 0 else s.mem a;
        mmap_calls = s.mmap_calls + 1;
      })
unfolding mmap
mmap-ok os size s p e = rw (e, mmap) refl

mmap-failed :
    (os : Os) (size : ℕ) (s : State)
    → os.mmap_answer s.mmap_calls size ≡ none
    → mmap os size s ≡ ok none (record s { mmap_calls = s.mmap_calls + 1 })
unfolding mmap
mmap-failed os size s e = rw (e, mmap) refl

spare-kept :
    (os : Os) (s : State) (o : Option Ptr)
    → os.mmap_answer s.mmap_calls 4096 ≡ o
    → ((q : Ptr) → os.mmap_answer s.mmap_calls 4096 ≡ some q → Vacant q 4096 s.mem)
    → Returns
        (λ _ t.
          ((a v : ℕ) → s.mem a ≡ some v → t.mem a ≡ some v)
          × (t.mmap_calls ≡ s.mmap_calls + 1)
          × (t ≡ record (counted s) { mem = t.mem; mmap_calls = t.mmap_calls }))
        ((mmap os 4096 >> pure tt) (counted s))
spare-kept os s none e spare =
    Returns.eq_then _ _ _ (mmap-failed os 4096 (counted s) e) (returns (λ a v h. h, refl, refl))
spare-kept os s (some q) e spare =
    Returns.eq_then _ _ _ (mmap-ok os 4096 (counted s) q e)
      (returns (λ a v h. ground (arith, spare q e a), refl, refl))

decoy-ok :
    (os : Os) (s : State)
    → ((q : Ptr) → os.mmap_answer s.mmap_calls 4096 ≡ some q → Vacant q 4096 s.mem)
    → Returns
        (λ _ t.
          ((a v : ℕ) → s.mem a ≡ some v → t.mem a ≡ some v)
          × (t.mmap_calls ≡ (if decoy_due s then s.mmap_calls + 1 else s.mmap_calls))
          × (t ≡ record (counted s) { mem = t.mem; mmap_calls = t.mmap_calls }))
        (decoy os (counted s))
unfolding decoy decoy_due
decoy-ok os s spare = elim (Bool-cases (decoy_due s)) [
  | inl due ↦ rw due (spare-kept os s _ refl spare)
  | inr idle ↦ rw idle (returns (λ a v e. e, refl, refl))
]

-- For a size of whole pages, where mmap grants a region and the list of mapped entries is that of the
-- table, `mem_map` returns the region without abort: its words are zero and its pages mapped in
-- the table, all that was mapped before is as before, and the page count is higher by its pages.
pub mem_map-Obtained :
    (os : Os) (size p : ℕ) (s : State)
    → size % 4096 ≡ 0
    → TableInv s.pagemap
    → Granted os size s p
    → Returns (λ r t. (r ≡ p) × Obtained s size p t) (mem_map os size s)
unfolding mem_map
mem_map-Obtained os size p s whole i g =
    let pages : size / 4096 * 4096 ≡ size = omega arith in
    rw whole (
      Returns.bind (decoy-ok os s g.spare) λ _ u (kept, calls, rest).
        let table : u.pagemap ≡ s.pagemap = ap (λ (v : State). v.pagemap) rest in
        let here : os.mmap_answer u.mmap_calls size ≡ some p = rw calls g.answer in
        Returns.eq_then _ _ _ (mmap-ok os size u p here) (
          Returns.bind
            (map_loop-ok os (size / 4096) p _ g.positive (omega (arith, g.bound)) g.aligned
              (λ q low high. rw table (g.unmapped q low (omega arith))) (rw table i))
            λ _ t (flags, count, same, list). returns (
              refl,
              record {
                zeros = λ a low high. rw same (ground arith);
                kept = λ a v e. rw same (ground (arith, kept a v e, g.vacant a));
                flags = λ q. flags q ∙ rw (pages, table) refl;
                list = list;
                count = omega (arith, count, ap (λ (v : State). v.page_count) rest);
                free_head =
                    ap (λ (v : State). v.free_list_head) same
                    ∙ ap (λ (v : State). v.free_list_head) rest;
                page_head =
                    ap (λ (v : State). v.page_list_head) same
                    ∙ ap (λ (v : State). v.page_list_head) rest;
              },
            )))
