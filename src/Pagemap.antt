-- ===== src/Pagemap.antt =====
-- cs4400/assn5/malloclab-handout/pagemap.c: a three-level table from page addresses to entries,
-- with the entries of mapped pages on a doubly linked list.
pub mod Links
pub mod Splice
pub mod Laws
pub mod Listing
use uof_ufall.Base.{
  ℕ, ◌+◌, ◌/◌, ◌%◌, ◌^◌, Bool, true, false, not, ◌&&◌, Option, none, some, ◌==◌, if◌then◌else◌,
}

-- The address of an entry: its index at each level.
pub record Slot : Type 0 where
  pub level1 : ℕ
  pub level2 : ℕ
  pub level3 : ℕ

-- `struct mpage`; a null `addr` is 0, a null link `none`.
pub record Mpage : Type 0 where
  pub addr : ℕ
  pub prev : Option Slot
  pub next : Option Slot

-- The static variables: which tables are allocated, what the entries hold, and the list's head.
pub record Pagemap : Type 0 where
  pub has_maps1 : Bool
  pub has_maps2 : ℕ → Bool
  pub has_maps3 : ℕ → ℕ → Bool
  pub entry : Slot → Mpage
  pub all_mapped_pages : Option Slot

abbrev pub empty_page : Mpage
empty_page = record { addr = 0; prev = none; next = none }

-- Program start: no table, and static storage is zero.
abbrev pub initial : Pagemap
initial = record {
  has_maps1 = false;
  has_maps2 = λ i. false;
  has_maps3 = λ i j. false;
  entry = λ t. empty_page;
  all_mapped_pages = none;
}

unfoldable pub same_slot : Slot → Slot → Bool
same_slot t u = t.level1 == u.level1 && (t.level2 == u.level2 && t.level3 == u.level3)

-- The bits of an address that index the levels, for LOG_APAGE_SIZE = 12.
unfoldable pub slot_of : ℕ → Slot
slot_of p = record {
  level1 = p / 2 ^ 48;
  level2 = p / 2 ^ 32 % 2 ^ 16;
  level3 = p / 2 ^ 12 % 2 ^ 20;
}

unfoldable pub set_entry : Slot → Mpage → Pagemap → Pagemap
unfolding same_slot
set_entry t e m = record m { entry = λ u. if same_slot u t then e else m.entry u }

-- `page->prev = q` and `page->next = q`
unfoldable pub set_prev : Slot → Option Slot → Pagemap → Pagemap
unfolding set_entry
set_prev t q m = set_entry t (record (m.entry t) { prev = q }) m

unfoldable pub set_next : Slot → Option Slot → Pagemap → Pagemap
unfolding set_entry
set_next t q m = set_entry t (record (m.entry t) { next = q }) m

-- The three `calloc`s on the way to an entry, each where its table is missing.
unfoldable pub ensure_maps1 : Pagemap → Pagemap
ensure_maps1 m = if m.has_maps1 then m else record m { has_maps1 = true; has_maps2 = λ i. false }

unfoldable pub ensure_maps2 : Slot → Pagemap → Pagemap
ensure_maps2 t m = if m.has_maps2 t.level1 then m else record m {
  has_maps2 = λ i. if i == t.level1 then true else m.has_maps2 i;
  has_maps3 = λ i j. if i == t.level1 then false else m.has_maps3 i j;
}

unfoldable pub ensure_maps3 : Slot → Pagemap → Pagemap
ensure_maps3 t m = if m.has_maps3 t.level1 t.level2 then m else record m {
  has_maps3 = λ i j. if i == t.level1 && j == t.level2 then true else m.has_maps3 i j;
  entry = λ u. if u.level1 == t.level1 && u.level2 == t.level2 then empty_page else m.entry u;
}

unfoldable pub ensure : Slot → Pagemap → Pagemap
unfolding ensure_maps1 ensure_maps2 ensure_maps3
ensure t m = ensure_maps3 t (ensure_maps2 t (ensure_maps1 m))

-- A write through a link that may be null.
unfoldable pub link_prev : Option Slot → Option Slot → Pagemap → Pagemap
unfolding set_prev
link_prev none q m = m
link_prev (some t) q m = set_prev t q m

-- `if (prev) prev->next = q; else all_mapped_pages = q;`
unfoldable pub link_next : Option Slot → Option Slot → Pagemap → Pagemap
unfolding set_next
link_next none q m = record m { all_mapped_pages = q }
link_next (some t) q m = set_next t q m

unfoldable pub is_head : Slot → Option Slot → Bool
unfolding same_slot
is_head t none = false
is_head t (some u) = same_slot t u

-- The branch `mapped`: put the entry at the head of the list; `none` is `abort`.
unfoldable pub map_entry : ℕ → Slot → Pagemap → Option Pagemap
unfolding is_head set_entry link_prev
map_entry p t m =
    if not ((m.entry t).addr == 0)
    then none
    else if is_head t m.all_mapped_pages
    then none
    else let linked = set_entry t (record { addr = p; prev = none; next = m.all_mapped_pages }) m in
      some (record (link_prev m.all_mapped_pages (some t) linked) { all_mapped_pages = some t })

-- The other branch: take the entry off the list.
unfoldable pub unmap_entry : Slot → Pagemap → Option Pagemap
unfolding set_entry link_next link_prev
unmap_entry t m =
    if (m.entry t).addr == 0
    then none
    else let cleared = set_entry t (record (m.entry t) { addr = 0 }) m in
      let unlinked = link_next (cleared.entry t).prev (cleared.entry t).next cleared in
      some (link_prev (unlinked.entry t).next (unlinked.entry t).prev unlinked)

unfoldable pub pagemap_modify : ℕ → Bool → Pagemap → Option Pagemap
unfolding slot_of ensure map_entry unmap_entry
pagemap_modify p mapped m =
    let t = slot_of p in if mapped then map_entry p t (ensure t m) else unmap_entry t (ensure t m)

unfoldable pub pagemap_is_mapped : ℕ → Pagemap → Bool
unfolding slot_of
pagemap_is_mapped p m =
    let t = slot_of p in
    m.has_maps1
    && (m.has_maps2 t.level1 && (m.has_maps3 t.level1 t.level2 && not ((m.entry t).addr == 0)))
