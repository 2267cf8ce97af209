-- ===== src/Pagemap/Laws.antt =====
-- pagemap.c against a set of page numbers: what is mapped after `pagemap_modify`, and when it aborts.
use uof_ufall.Base.{
  ℕ, ◌/◌, ◌^◌, ◌≡◌, ◌≢◌, ◌↔◌, refl, Bool, true, false, not, ◌&&◌, Option, none, some, arith, ◌==◌,
  if◌then◌else◌, ap, ap₂, ◌∙◌, subst, sym,
}
use uof_ufall.Pagemap.Links.{same_slot-eq}
use uof_ufall.Pagemap.{
  Slot, Mpage, Pagemap, same_slot, slot_of, set_entry, ensure, link_prev, link_next, map_entry,
  unmap_entry, pagemap_modify, pagemap_is_mapped,
}

-- the addresses lie on one page
abbrev pub same_page : ℕ → ℕ → Bool
same_page p q = p / 2 ^ 12 == q / 2 ^ 12

-- the three indices tell pages apart
same_slot-same_page : (p q : ℕ) → same_slot (slot_of p) (slot_of q) ≡ same_page p q
unfolding same_slot slot_of
same_slot-same_page p q = ground arith

-- what `pagemap_is_mapped` asks of an entry
unfoldable pub slot_mapped : Slot → Pagemap → Bool
slot_mapped t m =
    m.has_maps1
    && (m.has_maps2 t.level1 && (m.has_maps3 t.level1 t.level2 && not ((m.entry t).addr == 0)))

-- the tables on the way to `t` are there
unfoldable pub HasTables : Slot → Pagemap → Type 0
HasTables t m =
    (m.has_maps1 ≡ true) × (m.has_maps2 t.level1 ≡ true) × (m.has_maps3 t.level1 t.level2 ≡ true)

pub ensure-HasTables : (t : Slot) (m : Pagemap) → HasTables t (ensure t m)
unfolding ensure HasTables
ensure-HasTables t m = ground arith

pub ensure-slot_mapped : (t u : Slot) (m : Pagemap) → slot_mapped u (ensure t m) ≡ slot_mapped u m
unfolding ensure slot_mapped
ensure-slot_mapped t u m = ground arith

-- the same tables, and the same addresses but at `t`, which has `a`
pub record Sets (t : Slot) (a : ℕ) (m m' : Pagemap) : Type 0 where
  pub maps1 : m'.has_maps1 ≡ m.has_maps1
  pub maps2 : (i : ℕ) → m'.has_maps2 i ≡ m.has_maps2 i
  pub maps3 : (i j : ℕ) → m'.has_maps3 i j ≡ m.has_maps3 i j
  pub addr : (u : Slot) → (m'.entry u).addr ≡ (if same_slot u t then a else (m.entry u).addr)

link_prev-addr :
    (o q : Option Slot) (m : Pagemap) (u : Slot)
    → ((link_prev o q m).entry u).addr ≡ (m.entry u).addr
unfolding link_prev set_entry
link_prev-addr none q m u = refl
link_prev-addr (some t) q m u = ground (arith, same_slot-eq u t)

link_next-addr :
    (o q : Option Slot) (m : Pagemap) (u : Slot)
    → ((link_next o q m).entry u).addr ≡ (m.entry u).addr
unfolding link_next set_entry
link_next-addr none q m u = refl
link_next-addr (some t) q m u = ground (arith, same_slot-eq u t)

-- links move no table
abbrev SameTables : Pagemap → Pagemap → Type 0
SameTables m m' =
    (m'.has_maps1 ≡ m.has_maps1) × (m'.has_maps2 ≡ m.has_maps2) × (m'.has_maps3 ≡ m.has_maps3)

link_prev-SameTables : (o q : Option Slot) (m : Pagemap) → SameTables m (link_prev o q m)
unfolding link_prev
link_prev-SameTables none q m = (refl, refl, refl)
link_prev-SameTables (some t) q m = (refl, refl, refl)

link_next-SameTables : (o q : Option Slot) (m : Pagemap) → SameTables m (link_next o q m)
unfolding link_next
link_next-SameTables none q m = (refl, refl, refl)
link_next-SameTables (some t) q m = (refl, refl, refl)

set_entry-addr :
    (t : Slot) (e : Mpage) (m : Pagemap) (u : Slot)
    → ((set_entry t e m).entry u).addr ≡ (if same_slot u t then e.addr else (m.entry u).addr)
unfolding set_entry
set_entry-addr t e m u = ground arith

-- the results of the two branches, as values
unfoldable pub mapped_entry : ℕ → Slot → Pagemap → Pagemap
mapped_entry p t m =
    let linked = set_entry t (record { addr = p; prev = none; next = m.all_mapped_pages }) m in
    record (link_prev m.all_mapped_pages (some t) linked) { all_mapped_pages = some t }

unfoldable pub unmapped_entry : Slot → Pagemap → Pagemap
unmapped_entry t m =
    let cleared = set_entry t (record (m.entry t) { addr = 0 }) m in
    let unlinked = link_next (cleared.entry t).prev (cleared.entry t).next cleared in
    link_prev (unlinked.entry t).next (unlinked.entry t).prev unlinked

map_entry-eq :
    (p : ℕ) (t : Slot) (m m' : Pagemap) → map_entry p t m ≡ some m' → m' ≡ mapped_entry p t m
unfolding map_entry mapped_entry
map_entry-eq p t m m' h = ground arith

unmap_entry-eq : (t : Slot) (m m' : Pagemap) → unmap_entry t m ≡ some m' → m' ≡ unmapped_entry t m
unfolding unmap_entry unmapped_entry
unmap_entry-eq t m m' h = ground arith

set_entry-Sets : (t : Slot) (e : Mpage) (m : Pagemap) → Sets t e.addr m (set_entry t e m)
unfolding set_entry
set_entry-Sets t e m = record {
  maps1 = refl;
  maps2 = λ i. refl;
  maps3 = λ i j. refl;
  addr = set_entry-addr t e m;
}

-- moving links keeps what the tables hold
module _ {t : Slot} {a : ℕ} {m m' : Pagemap} (st : Sets t a m m') (o q : Option Slot) where
  link_prev-Sets : Sets t a m (link_prev o q m')
  link_prev-Sets =
      let tables = link_prev-SameTables o q m' in
      record {
        maps1 = tables.0 ∙ st.maps1;
        maps2 = λ i. ap (λ (f : ℕ → Bool). f i) tables.1 ∙ st.maps2 i;
        maps3 = λ i j. ap (λ (f : ℕ → ℕ → Bool). f i j) tables.2 ∙ st.maps3 i j;
        addr = λ u. link_prev-addr o q m' u ∙ st.addr u;
      }

  link_next-Sets : Sets t a m (link_next o q m')
  link_next-Sets =
      let tables = link_next-SameTables o q m' in
      record {
        maps1 = tables.0 ∙ st.maps1;
        maps2 = λ i. ap (λ (f : ℕ → Bool). f i) tables.1 ∙ st.maps2 i;
        maps3 = λ i j. ap (λ (f : ℕ → ℕ → Bool). f i j) tables.2 ∙ st.maps3 i j;
        addr = λ u. link_next-addr o q m' u ∙ st.addr u;
      }

pub mapped_entry-Sets : (p : ℕ) (t : Slot) (m : Pagemap) → Sets t p m (mapped_entry p t m)
unfolding mapped_entry
mapped_entry-Sets p t m =
    let st = link_prev-Sets (set_entry-Sets t _ m) m.all_mapped_pages (some t) in
    record { maps1 = st.maps1; maps2 = st.maps2; maps3 = st.maps3; addr = st.addr }

pub unmapped_entry-Sets : (t : Slot) (m : Pagemap) → Sets t 0 m (unmapped_entry t m)
unfolding unmapped_entry
unmapped_entry-Sets t m =
    link_prev-Sets (link_next-Sets (set_entry-Sets t (record (m.entry t) { addr = 0 }) m) _ _) _ _

-- what the table says of `u` once the entry at `t` holds `a`
pub Sets-slot_mapped :
    (t u : Slot) (a : ℕ) (m m' : Pagemap)
    → HasTables t m
    → Sets t a m m'
    → slot_mapped u m' ≡ (if same_slot u t then not (a == 0) else slot_mapped u m)
unfolding slot_mapped HasTables
Sets-slot_mapped t u a m m' h st =
    ground
      (arith, st.maps1, st.maps2 u.level1, st.maps3 u.level1 u.level2, st.addr u, same_slot-eq u t)

modified-slot_mapped :
    (p q a : ℕ) (m m' : Pagemap)
    → Sets (slot_of p) a (ensure (slot_of p) m) m'
    → pagemap_is_mapped q m' ≡ (if same_page q p then not (a == 0) else pagemap_is_mapped q m)
unfolding pagemap_is_mapped slot_mapped
modified-slot_mapped p q a m m' st =
    Sets-slot_mapped (slot_of p) (slot_of q) a (ensure (slot_of p) m) m'
      (ensure-HasTables (slot_of p) m) st
    ∙ ap₂ (λ b c. if b then not (a == 0) else c) (same_slot-same_page q p)
        (ensure-slot_mapped (slot_of p) (slot_of q) m)

-- A successful `pagemap_modify` of an address other than null makes `pagemap_is_mapped` answer by the new flag for
-- every address of its page, and leaves its answer for all other pages.
pub is_mapped-modify :
    (p q : ℕ) (flag : Bool) (m m' : Pagemap)
    → p ≢ 0
    → pagemap_modify p flag m ≡ some m'
    → pagemap_is_mapped q m' ≡ (if same_page q p then flag else pagemap_is_mapped q m)
unfolding pagemap_modify
is_mapped-modify p q true m m' ne h =
    let t = slot_of p in
    let st =
      subst (Sets t p (ensure t m)) (sym (map_entry-eq p t (ensure t m) m' h))
        (mapped_entry-Sets p t (ensure t m)) in
    ground (arith, modified-slot_mapped p q p m m' st)
is_mapped-modify p q false m m' ne h =
    let t = slot_of p in
    let st =
      subst (Sets t 0 (ensure t m)) (sym (unmap_entry-eq t (ensure t m) m' h))
        (unmapped_entry-Sets t (ensure t m)) in
    ground (arith, modified-slot_mapped p q 0 m m' st)

pub ensure-addr :
    (t : Slot) (m : Pagemap) → (not (((ensure t m).entry t).addr == 0)) ≡ slot_mapped t m
unfolding ensure slot_mapped
ensure-addr t m = ground arith

-- Unmapping aborts exactly on a page that is not mapped.
pub unmap-aborts_iff :
    (p : ℕ) (m : Pagemap) → (pagemap_modify p false m ≡ none) ↔ (pagemap_is_mapped p m ≡ false)
unfolding pagemap_modify pagemap_is_mapped unmap_entry slot_mapped
unmap-aborts_iff p m =
    (λ h. ground (arith, ensure-addr (slot_of p) m), λ h. ground (arith, ensure-addr (slot_of p) m))

-- Mapping aborts on a page that is mapped.
pub map-aborts :
    (p : ℕ) (m : Pagemap) → pagemap_is_mapped p m ≡ true → pagemap_modify p true m ≡ none
unfolding pagemap_modify pagemap_is_mapped map_entry slot_mapped
map-aborts p m h = ground (arith, ensure-addr (slot_of p) m)

-- the table answers by the page
pub is_mapped-same_page :
    (p q : ℕ) (m : Pagemap) → same_page p q ≡ true → pagemap_is_mapped p m ≡ pagemap_is_mapped q m
unfolding pagemap_is_mapped slot_mapped
is_mapped-same_page p q m h =
    ap (λ t. slot_mapped t m) (same_slot-eq (slot_of p) (slot_of q) (same_slot-same_page p q ∙ h))
