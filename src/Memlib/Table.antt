-- ===== src/Memlib/Table.antt =====
-- The page table that memlib.c works on, with the list of its mapped entries.
use uof_ufall.Base.{
  ℕ, ◌^◌, ◌<◌, arith, ◌∷◌, ◌≡◌, refl, true, false, some, List, [], ◌∙◌, sym, subst, Bool-cases, inl,
  inr, ◌++◌, ◌≢◌,
}
use uof_ufall.Pagemap.{Slot, Pagemap, initial, slot_of, pagemap_modify, pagemap_is_mapped}
use uof_ufall.Pagemap.Laws.{slot_mapped, unmap-aborts_iff}
use uof_ufall.Pagemap.Links.{nil, slot-split, has_slot, has_slot-append, same_slot-eq}
use uof_ufall.Pagemap.Listing.{MappedList, map-MappedList, unmap-MappedList}

-- entries of addresses below 2 ^ 64
abbrev pub Below : List Slot → Type 0
Below ts = (t : Slot) → has_slot t ts ≡ true → t.level1 < 2 ^ 16

-- The list of pagemap.c has exactly the mapped entries, all of them of addresses below 2 ^ 64.
abbrev pub TableInv : Pagemap → Type 0
TableInv m = (ts : List Slot) × MappedList m ts × Below ts

pub initial-TableInv : TableInv initial
unfolding slot_mapped
initial-TableInv = ([], record { links = nil; members = λ t. refl; home = λ t h. cc }, λ t h. cc)

pub unmap-TableInv :
    (p : ℕ) (m m' : Pagemap) → TableInv m → pagemap_modify p false m ≡ some m' → TableInv m'
unfolding pagemap_is_mapped slot_mapped
unmap-TableInv p m m' (ts, l, below) e = elim (Bool-cases (pagemap_is_mapped p m)) [
  | inl mapped ↦
      let (us, vs, split) = slot-split (slot_of p) ts (sym (l.members (slot_of p)) ∙ mapped) in
      let (m'', e', l') = unmap-MappedList p m us vs (subst (MappedList m) split l) in
      (
        us ++ vs,
        subst (λ z. MappedList z (us ++ vs)) (cc (e, e')) l',
        λ t h. below t (
            rw split
              (ground (arith, has_slot-append t us vs, has_slot-append t us (slot_of p ∷ vs)))),
      )
  | inr free ↦ cc (e, (unmap-aborts_iff p m).1 free)
]

pub map-TableInv :
    (p : ℕ) (m : Pagemap)
    → TableInv m
    → p ≢ 0
    → p < 2 ^ 64
    → pagemap_is_mapped p m ≡ false
    → (m' : Pagemap) × (pagemap_modify p true m ≡ some m') × TableInv m'
unfolding slot_of
map-TableInv p m (ts, l, below) ne low free =
    let (m', e, l') = map-MappedList p m l ne free in
    (m', e, (_, l', λ t h. ground (arith, below t, same_slot-eq t (slot_of p))))
