-- ===== src/Memlib/Reset.antt =====
-- `mem_reset` of memlib.c walks the list of mapped pages with `pagemap_for_each` and unmaps each.
use uof_ufall.Base.{
  ℕ, zero, suc, ◌+◌, ◌*◌, ◌^◌, ◌≤◌, ◌<◌, ◌≡◌, refl, true, false, Option, none, some, List, [], ◌∷◌,
  arith, ap, sym, ◌∙◌, subst, length, map,
}
use uof_ufall.Base.Distinct.{has, Distinct, Distinct-length}
use uof_ufall.Machine.{Ptr, ok, State, Os, munmap}
use uof_ufall.Machine.Returns
use uof_ufall.Machine.Returns.{Returns, returns}
use uof_ufall.Memlib.{for_each_loop, pagemap_for_each, unmap, mem_reset, modify, mem_heapsize}
use uof_ufall.Memlib.Table.{TableInv, Below}
use uof_ufall.Pagemap.{Slot, Mpage, Pagemap, slot_of, same_slot, pagemap_modify, pagemap_is_mapped}
use uof_ufall.Pagemap.Laws.{slot_mapped}
use uof_ufall.Pagemap.Links.{Linked, nil, cons, has_slot, same_slot_refl}
use uof_ufall.Pagemap.Listing.{MappedList, unmap-MappedList}

-- where a list of entries starts
abbrev first : List Slot → Option Slot
first [] = none
first (t ∷ ts) = some t

Linked-first :
    {e : Slot → Mpage} {before o : Option Slot} {ts : List Slot}
    → Linked e before o ts
    → o ≡ first ts
Linked-first nil = refl
Linked-first (cons out back c) = refl

Linked-next :
    {e : Slot → Mpage} {before o : Option Slot} {t : Slot} {ts : List Slot}
    → Linked e before o (t ∷ ts)
    → (e t).next ≡ first ts
Linked-next (cons out back c) = Linked-first c

-- the number of an entry's page
page_number : Slot → ℕ
page_number t = t.level1 * 2 ^ 36 + t.level2 * 2 ^ 20 + t.level3

unmap-ok :
    (os : Os) (p : Ptr) (s : State)
    → ((q size : ℕ) → os.munmap_succeeds q size ≡ true)
    → Returns (λ _ t. t ≡ record s { mem = t.mem }) (unmap os p s)
unfolding unmap munmap
unmap-ok os p s succeeds = rw (succeeds p 4096) (returns refl)

modify-ok :
    (p : ℕ) (s : State) (m' : Pagemap)
    → pagemap_modify p false s.pagemap ≡ some m'
    → modify p false s ≡ ok tt (record s { pagemap = m' })
unfolding modify
modify-ok p s m' e = rw (e, modify) refl

-- the walk empties the list
for_each-Emptied :
    (os : Os) (fuel : ℕ) (s : State) (ts : List Slot) (o : Option Slot)
    → ((q size : ℕ) → os.munmap_succeeds q size ≡ true)
    → MappedList s.pagemap ts
    → o ≡ first ts
    → length ts < fuel
    → Returns
        (λ _ t. MappedList t.pagemap [] × (t ≡ record s { mem = t.mem; pagemap = t.pagemap }))
        (for_each_loop fuel (unmap os) o s)
unfolding for_each_loop
for_each-Emptied os fuel s [] o succeeds l e enough = rw e (returns (l, refl))
for_each-Emptied os zero s (t ∷ ts) o succeeds l e enough = absurd (omega arith)
for_each-Emptied os (suc fuel) s (t ∷ ts) o succeeds l e enough =
    let at = (s.pagemap.entry t).addr in
    let home : slot_of at ≡ t = l.home t (ground (arith, same_slot_refl t)) in
    let (m', gone, l') =
      unmap-MappedList at s.pagemap [] ts
        (subst (λ z. MappedList s.pagemap (z ∷ ts)) (sym home) l) in
    rw e (
      Returns.bind (unmap-ok os at s succeeds) λ _ u same.
        let table : u.pagemap ≡ s.pagemap = ap (λ (v : State). v.pagemap) same in
        Returns.eq_then _ _ _
          (ap (λ z. modify (z.entry t).addr false u) table ∙ modify-ok at u m' (rw table gone))
          (Returns.mono
            (for_each-Emptied os fuel (record u { pagemap = m' }) ts _ succeeds l'
              (Linked-next l.links) (omega arith))
            λ _ v (empty, rest). (
              empty,
              rest ∙ ap (λ (z : State). record z { mem = v.mem; pagemap = v.pagemap }) same,
            )))

-- an entry of an address below 2 ^ 64
abbrev Small : Slot → Type 0
Small t = (t.level1 < 2 ^ 16) × (t.level2 < 2 ^ 16) × (t.level3 < 2 ^ 20)

slot_of-Small : (p : ℕ) (t : Slot) → slot_of p ≡ t → t.level1 < 2 ^ 16 → Small t
unfolding slot_of
slot_of-Small p t e low = (
  low,
  subst (λ (z : Slot). z.level2 < 2 ^ 16) e (omega arith),
  subst (λ (z : Slot). z.level3 < 2 ^ 20) e (omega arith),
)

other_number :
    (t : Slot) (ts : List Slot)
    → Small t
    → ((u : Slot) → has_slot u ts ≡ true → Small u)
    → has_slot t ts ≡ false
    → has (page_number t) (map page_number ts) ≡ false
unfolding page_number same_slot
other_number t [] small smalls out = refl
other_number t (u ∷ ts) small smalls out =
    let here = smalls u (ground (arith, same_slot_refl u)) in
    let rest = other_number t ts small (λ v h. smalls v (ground arith)) (ground arith) in
    ground (arith, here, rest)

numbers-Distinct :
    {e : Slot → Mpage} {before o : Option Slot} {ts : List Slot}
    → Linked e before o ts
    → ((u : Slot) → has_slot u ts ≡ true → Small u)
    → Distinct (map page_number ts)
numbers-Distinct nil smalls = tt
numbers-Distinct (cons {t} {ts} out back c) smalls = (
  other_number t ts (smalls t (ground (arith, same_slot_refl t))) (λ v h. smalls v (ground arith))
      out,
  numbers-Distinct c λ v h. smalls v (ground arith),
)

numbers_below :
    (ts : List Slot) (a : ℕ)
    → ((u : Slot) → has_slot u ts ≡ true → Small u)
    → has a (map page_number ts) ≡ true
    → a < 2 ^ 52
unfolding page_number
numbers_below [] a smalls h = cc
numbers_below (t ∷ ts) a smalls h = ground (
  arith,
  smalls t (ground (arith, same_slot_refl t)),
  numbers_below ts a λ v k. smalls v (ground arith),
)

length-map : (f : Slot → ℕ) (ts : List Slot) → length (map f ts) ≡ length ts
length-map f [] = refl
length-map f (t ∷ ts) = omega (arith, length-map f ts)

-- the table has no more entries than there are pages below 2 ^ 64
mapped_length : (m : Pagemap) (ts : List Slot) → MappedList m ts → Below ts → length ts ≤ 2 ^ 52
mapped_length m ts l below =
    let smalls : (u : Slot) → has_slot u ts ≡ true → Small u =
      λ u h. slot_of-Small (m.entry u).addr u (l.home u h) (below u h) in
    omega (
      arith,
      length-map page_number ts,
      Distinct-length (2 ^ 52) (map page_number ts) (numbers-Distinct l.links smalls)
          λ a h. numbers_below ts a smalls h,
    )

-- what the walk leaves
record Emptied (s t : State) : Type 0 where
  unmapped : (q : ℕ) → pagemap_is_mapped q t.pagemap ≡ false
  head : t.pagemap.all_mapped_pages ≡ none
  free_head : t.free_list_head ≡ s.free_list_head
  page_head : t.page_list_head ≡ s.page_list_head

pagemap_for_each-Emptied :
    (os : Os) (fuel : ℕ) (s : State)
    → ((q size : ℕ) → os.munmap_succeeds q size ≡ true)
    → TableInv s.pagemap
    → 2 ^ 52 < fuel
    → Returns (λ _ t. Emptied s t) (pagemap_for_each fuel (unmap os) s)
unfolding pagemap_for_each pagemap_is_mapped slot_mapped
pagemap_for_each-Emptied os fuel s succeeds (ts, l, below) enough =
    Returns.bind
      (for_each-Emptied os fuel s ts _ succeeds l (Linked-first l.links)
        (omega (arith, mapped_length s.pagemap ts l below)))
      λ _ t (empty, rest). returns (record {
        unmapped = λ q. empty.members (slot_of q);
        head = refl;
        free_head = ap (λ (v : State). v.free_list_head) rest;
        page_head = ap (λ (v : State). v.page_list_head) rest;
      })

-- Where munmap succeeds and the page table's list is that of its mapped entries, with fuel beyond
-- 2 ^ 52, `mem_reset` ends without abort: no page is mapped in the table any more, the list is
-- empty, both counters are zero, and mm.c's variables are as before.
pub mem_reset-Emptied :
    (os : Os) (fuel : ℕ) (s : State)
    → ((q size : ℕ) → os.munmap_succeeds q size ≡ true)
    → TableInv s.pagemap
    → 2 ^ 52 < fuel
    → Returns
        (λ _ t.
          ((q : ℕ) → pagemap_is_mapped q t.pagemap ≡ false)
          × (t.pagemap.all_mapped_pages ≡ none)
          × (mem_heapsize t ≡ ok 0 t)
          × (t.activity_counter ≡ 0)
          × (t.free_list_head ≡ s.free_list_head)
          × (t.page_list_head ≡ s.page_list_head))
        (mem_reset os fuel s)
unfolding mem_reset mem_heapsize
mem_reset-Emptied os fuel s succeeds i enough =
    Returns.bind (pagemap_for_each-Emptied os fuel s succeeds i enough)
      λ _ t e. returns (e.unmapped, e.head, refl, refl, e.free_head, e.page_head)
