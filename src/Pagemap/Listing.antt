-- ===== src/Pagemap/Listing.antt =====
-- The list of mapped entries under `pagemap_modify`.
use uof_ufall.Base.{
  ℕ, ◌≡◌, ◌≢◌, refl, true, false, Option, none, some, List, [], ◌∷◌, ◌++◌, arith, ◌∙◌, subst, sym,
  if◌then◌else◌, ap, Bool-cases, inl, inr,
}
use uof_ufall.Pagemap.{
  Slot, Mpage, Pagemap, same_slot, is_head, slot_of, set_entry, set_prev, set_next, ensure,
  link_prev, link_next, map_entry, unmap_entry, pagemap_modify, pagemap_is_mapped,
}
use uof_ufall.Pagemap.Laws.{
  slot_mapped, ensure-addr, HasTables, ensure-HasTables, ensure-slot_mapped, mapped_entry,
  unmapped_entry, mapped_entry-Sets, unmapped_entry-Sets, Sets, Sets-slot_mapped,
}
use uof_ufall.Pagemap.Links
use uof_ufall.Pagemap.Links.{
  Linked, nil, cons, has_slot, has_slot-append, same_slot-eq, same_slot_refl, last_slot, slot_after,
  head-mem, last_slot-mem, Around, around,
}
use uof_ufall.Pagemap.Splice.{Joined, relink, splice}

-- The list from `all_mapped_pages` has the mapped entries, each of its page's address.
pub record MappedList (m : Pagemap) (ts : List Slot) : Type 0 where
  pub links : Linked m.entry none m.all_mapped_pages ts
  pub members : (t : Slot) → slot_mapped t m ≡ has_slot t ts
  pub home : (t : Slot) → has_slot t ts ≡ true → slot_of (m.entry t).addr ≡ t

ensure-entry :
    (t u : Slot) (m : Pagemap) → slot_mapped u m ≡ true → (ensure t m).entry u ≡ m.entry u
unfolding ensure slot_mapped
ensure-entry t u m h = ground arith

ensure-head : (t : Slot) (m : Pagemap) → (ensure t m).all_mapped_pages ≡ m.all_mapped_pages
unfolding ensure
ensure-head t m = ground arith

ensure-MappedList :
    (t : Slot) {m : Pagemap} {ts : List Slot} → MappedList m ts → MappedList (ensure t m) ts
ensure-MappedList t {m} {ts} l =
    let same : (u : Slot) → has_slot u ts ≡ true → (ensure t m).entry u ≡ m.entry u =
      λ u h. ensure-entry t u m (l.members u ∙ h) in
    record {
      links = rw (ensure-head t m) (
          Links.frame l.links
            λ u h. (ap (λ (e : Mpage). e.prev) (same u h), ap (λ (e : Mpage). e.next) (same u h)));
      members = λ u. ensure-slot_mapped t u m ∙ l.members u;
      home = λ u h. rw (same u h) (l.home u h);
    }

-- an entry linked in front of `o`
abbrev pushed : ℕ → Slot → Option Slot → Pagemap → Pagemap
pushed p t o m = link_prev o (some t) (set_entry t (record { addr = p; prev = none; next = o }) m)

pushed-Joined :
    (p : ℕ) (t : Slot) (o : Option Slot) (m : Pagemap)
    → Joined m.entry (pushed p t o m).entry t (some t) o
unfolding link_prev set_prev set_entry is_head
pushed-Joined p t none m = record { nexts = λ u ne. ground arith; prevs = λ u ne. ground arith }
pushed-Joined p t (some h) m = record {
  nexts = λ u ne. ground (arith, same_slot-eq u h);
  prevs = λ u ne. ground (arith, same_slot-eq u h);
}

pushed-entry :
    (p : ℕ) (t : Slot) (o : Option Slot) (m : Pagemap)
    → is_head t o ≡ false
    → (pushed p t o m).entry t ≡ record { addr = p; prev = none; next = o }
unfolding link_prev set_prev set_entry is_head
pushed-entry p t none m h = ground (arith, same_slot_refl t)
pushed-entry p t (some u) m h = ground (arith, same_slot_refl t)

-- an entry that leaves the list
abbrev unlinked : Slot → Option Slot → Option Slot → Pagemap → Pagemap
unlinked t prev next m =
    link_prev next prev (link_next prev next (set_entry t (record (m.entry t) { addr = 0 }) m))

set_entry-at : (t : Slot) (e : Mpage) (m : Pagemap) → (set_entry t e m).entry t ≡ e
unfolding set_entry
set_entry-at t e m = ground (arith, same_slot_refl t)

link_next-at :
    (t : Slot) (o q : Option Slot) (m : Pagemap)
    → is_head t o ≡ false
    → (link_next o q m).entry t ≡ m.entry t
unfolding link_next set_next set_entry is_head
link_next-at t none q m h = refl
link_next-at t (some u) q m h = ground arith

unmapped_entry-unlinked :
    (t : Slot) (m : Pagemap) (prev next : Option Slot)
    → (m.entry t).prev ≡ prev
    → (m.entry t).next ≡ next
    → is_head t prev ≡ false
    → unmapped_entry t m ≡ unlinked t prev next m
unfolding unmapped_entry
unmapped_entry-unlinked t m prev next e f h =
    let at = set_entry-at t (record (m.entry t) { addr = 0 }) m in
    let cleared : Mpage = record { addr = 0; prev = prev; next = next } in
    let at' : (link_next prev next (set_entry t cleared m)).entry t ≡ cleared =
      link_next-at t prev next (set_entry t cleared m) h ∙ set_entry-at t cleared m in
    rw (at, e, f, at') refl

unlinked-Joined :
    (t : Slot) (prev next : Option Slot) (m : Pagemap)
    → Joined m.entry (unlinked t prev next m).entry t prev next
unfolding link_prev link_next set_prev set_next set_entry is_head
unlinked-Joined t none none m = record {
  nexts = λ u ne. ground arith;
  prevs = λ u ne. ground arith;
}
unlinked-Joined t none (some n) m = record {
  nexts = λ u ne. ground (arith, same_slot-eq u n);
  prevs = λ u ne. ground (arith, same_slot-eq u n);
}
unlinked-Joined t (some p) none m = record {
  nexts = λ u ne. ground (arith, same_slot-eq u p);
  prevs = λ u ne. ground (arith, same_slot-eq u p);
}
unlinked-Joined t (some p) (some n) m = record {
  nexts = λ u ne. ground (arith, same_slot-eq u p, same_slot-eq u n);
  prevs = λ u ne. ground (arith, same_slot-eq u p, same_slot-eq u n);
}

unlinked-head :
    (t : Slot) (prev next : Option Slot) (m : Pagemap)
    → (unlinked t prev next m).all_mapped_pages
      ≡ elim prev [ none ↦ next | some _ ↦ m.all_mapped_pages ]
unfolding link_prev link_next set_prev set_next set_entry
unlinked-head t none none m = refl
unlinked-head t none (some n) m = refl
unlinked-head t (some p) none m = refl
unlinked-head t (some p) (some n) m = refl

-- an entry of the joined list is one of the two parts
has_slot-without :
    (t u : Slot) (us vs : List Slot)
    → has_slot t us ≡ false
    → has_slot t vs ≡ false
    → (if same_slot u t then false else has_slot u (us ++ t ∷ vs)) ≡ has_slot u (us ++ vs)
has_slot-without t u us vs o o' =
    ground (arith, has_slot-append u us (t ∷ vs), has_slot-append u us vs, same_slot-eq u t)

unlinked-first :
    (t : Slot) (us : List Slot) (next : Option Slot) (m : Pagemap)
    → (unlinked t (last_slot none us) next m).all_mapped_pages
      ≡ slot_after m.all_mapped_pages next us
unfolding last_slot slot_after
unlinked-first t us next m = unlinked-head t (last_slot none us) next m ∙ first us
  where
    last : (u : Slot) (us : List Slot) → (v : Slot) × (last_slot (some u) us ≡ some v)
    last u [] = (u, refl)
    last u (v ∷ us) = last v us

    first :
        (us : List Slot)
        → (elim (last_slot none us) [ none ↦ next | some _ ↦ m.all_mapped_pages ])
          ≡ slot_after m.all_mapped_pages next us
    first [] = refl
    first (u ∷ us) = rw ((last u us).1) refl

-- a table with the entry's page on the way to it
module _ (t : Slot) {m : Pagemap} (tables : HasTables t m) where
  push-MappedList :
      {ts : List Slot} (p : ℕ)
      → MappedList m ts
      → slot_of p ≡ t
      → p ≢ 0
      → has_slot t ts ≡ false
      → MappedList (mapped_entry p t m) (t ∷ ts)
  unfolding mapped_entry is_head
  push-MappedList {ts} p l place ne out =
      let apart : is_head t m.all_mapped_pages ≡ false = ground (arith, head-mem t l.links) in
      let j = pushed-Joined p t m.all_mapped_pages m in
      let e = pushed-entry p t m.all_mapped_pages m apart in
      record {
        links = cons out (ap (λ (x : Mpage). x.prev) e) (
            subst (λ z. Linked (pushed p t m.all_mapped_pages m).entry (some t) z ts)
              (sym (ap (λ (x : Mpage). x.next) e))
              (relink j l.links refl out λ u h. rw (same_slot-eq u t h) out));
        members = λ u.
            Sets-slot_mapped t u p m (mapped_entry p t m) tables (mapped_entry-Sets p t m)
            ∙ ground (arith, l.members u);
        home = λ u h.
            rw (Sets.addr (mapped_entry-Sets p t m) u) (elim (Bool-cases (same_slot u t)) [
              | inl same ↦ rw same (place ∙ sym (same_slot-eq u t same))
              | inr other ↦ rw other (l.home u (ground arith))
            ]);
      }

  drop-MappedList :
      (us vs : List Slot) → MappedList m (us ++ t ∷ vs) → MappedList (unmapped_entry t m) (us ++ vs)
  unfolding is_head
  drop-MappedList us vs l =
      let r = around us l.links in
      let prev = last_slot none us in
      let apart : is_head t prev ≡ false = ground (arith, last_slot-mem t none us, r.out) in
      let e = unmapped_entry-unlinked t m prev (m.entry t).next r.back refl apart in
      let j = unlinked-Joined t prev (m.entry t).next m in
      let without = λ (u : Slot). has_slot-without t u us vs r.out r.out' in
      record {
        links =
            rw (e, unlinked-first t us (m.entry t).next m)
              (splice j us vs l.links refl refl
                λ u h. r.apart u (ground (arith, last_slot-mem u none us)));
        members = λ u.
            Sets-slot_mapped t u 0 m (unmapped_entry t m) tables (unmapped_entry-Sets t m)
            ∙ (rw (l.members u) refl ∙ without u);
        home = λ u h.
            rw (Sets.addr (unmapped_entry-Sets t m) u) (elim (Bool-cases (same_slot u t)) [
              | inl same ↦ absurd (ground (arith, without u))
              | inr other ↦ rw other (l.home u (ground (arith, without u)))
            ]);
      }

-- `pagemap_modify` with 1 of a page that is not mapped puts its entry at the head of the list.
pub map-MappedList :
    (p : ℕ) (m : Pagemap) {ts : List Slot}
    → MappedList m ts
    → p ≢ 0
    → pagemap_is_mapped p m ≡ false
    → (m' : Pagemap) × (pagemap_modify p true m ≡ some m') × MappedList m' (slot_of p ∷ ts)
unfolding pagemap_modify map_entry mapped_entry pagemap_is_mapped is_head slot_mapped
map-MappedList p m {ts} l ne free =
    let t = slot_of p in
    let l' = ensure-MappedList t l in
    let out : has_slot t ts ≡ false = sym (l.members t) ∙ free in
    (
      mapped_entry p t (ensure t m),
      ground (arith, ensure-addr t m, head-mem t l'.links),
      push-MappedList t (ensure-HasTables t m) p l' refl ne out,
    )

-- With 0, it takes the entry of a mapped page off the list, wherever it stands.
pub unmap-MappedList :
    (p : ℕ) (m : Pagemap) (us vs : List Slot)
    → MappedList m (us ++ slot_of p ∷ vs)
    → (m' : Pagemap) × (pagemap_modify p false m ≡ some m') × MappedList m' (us ++ vs)
unfolding pagemap_modify unmap_entry unmapped_entry
unmap-MappedList p m us vs l =
    let t = slot_of p in
    let l' = ensure-MappedList t l in
    let own : slot_mapped t m ≡ true =
      l.members t ∙ ground (arith, has_slot-append t us (t ∷ vs), same_slot_refl t) in
    (
      unmapped_entry t (ensure t m),
      ground (arith, ensure-addr t m),
      drop-MappedList t (ensure-HasTables t m) us vs l',
    )
