-- ===== src/Mm/Arena/Drop.antt =====
-- A page whose one block was taken off the free list leaves the page list and is unmapped.
use uof_ufall.Base.{
  ℕ, ◌+◌, ◌-◌, ◌%◌, ◌≤◌, ◌<◌, ◌≡◌, ◌≢◌, refl, true, false, some, ◌||◌, List, [], ◌∷◌, ◌++◌, arith,
  ◌∙◌, ap, inl, inr, Bool-cases, length, length-append, All, if◌then◌else◌,
}
use native.Mathlib.Decide.{ℕ_discrete}
use uof_ufall.Machine.{Ptr, null, State, Memory, Os, within, ◌>>◌}
use uof_ufall.Machine.Returns
use uof_ufall.Machine.Returns.{Returns}
use uof_ufall.Memlib.{mem_unmap}
use uof_ufall.Memlib.Unmap.{mem_unmap-TableInv, RegionMapped}
use uof_ufall.Memlib.Table.{TableInv}
use uof_ufall.Pagemap.{pagemap_is_mapped}
use uof_ufall.Mm.Arena.{view, Region, HeapInv}
use uof_ufall.Mm.Arena.Blocks.{every_listed}
use uof_ufall.Mm.Arena.Detach.{Detached, page-mem, page_self}
use uof_ufall.Mm.Arena.Taken.{Taken, StaysNone}
use uof_ufall.Mm.Blocks.Elsewhere.{Elsewhere-refl}
use uof_ufall.Mm.Blocks.Footer.{PageAt}
use uof_ufall.Mm.Heap.{Block, PageInv}
use uof_ufall.Mm.Heap.Keeps.{KeepsPage-none}
use uof_ufall.Mm.Heap.Page.{link-element, Chain-mapped}
use uof_ufall.Mm.Heap.Tiles.{Tiles-frame}
use uof_ufall.Mm.Lists.{unlink_page}
use uof_ufall.Mm.Lists.Around.{around, is_link-append}
use uof_ufall.Mm.Lists.Chain
use uof_ufall.Mm.Lists.Chain.{Chain, has, is_link}
use uof_ufall.Mm.Lists.Chunk.{Pages, is_page_word, first_page}
use uof_ufall.Mm.Lists.Unlink.{unlink-Chain}

is_page_word-append :
    (a : ℕ) (xs ys : List Ptr)
    → is_page_word a (xs ++ ys) ≡ (is_page_word a xs || is_page_word a ys)
is_page_word-append a [] ys = refl
is_page_word-append a (x ∷ xs) ys = ground (arith, is_page_word-append a xs ys)

page_end_word :
    (p : Ptr) (pages : List Ptr) → has p pages ≡ true → is_page_word (p + 24) pages ≡ true
page_end_word p [] h = cc
page_end_word p (q ∷ pages) h = ground (arith, page_end_word p pages)

first_page-drop :
    (ends : Ptr → Ptr) (a : ℕ) (us : List Ptr) (pc : Ptr) (vs : List Ptr) (p : Ptr)
    → first_page ends a (us ++ pc ∷ vs) ≡ p
    → p ≢ pc
    → first_page ends a (us ++ vs) ≡ p
unfolding first_page
first_page-drop ends a [] pc vs p e ne = ground (arith, ne)
first_page-drop ends a (u ∷ us) pc vs p e ne = ground (arith, first_page-drop ends a us pc vs p)

-- the state `t` after the page was unlinked and unmapped
record Gone (s t : State) (ends : Ptr → Ptr) (us : List Ptr) (pc : Ptr) (vs : List Ptr)
    : Type 0 where
  pages : Chain t.mem null t.page_list_head (us ++ vs)
  head : t.free_list_head ≡ s.free_list_head
  table :
      (q : ℕ)
      → pagemap_is_mapped q t.pagemap
        ≡ (if within pc (ends pc - pc) q then false else pagemap_is_mapped q s.pagemap)
  list : TableInv t.pagemap
  words :
      (a : ℕ)
      → within pc (ends pc - pc) a ≡ false
      → is_link a (us ++ vs) ≡ false
      → t.mem a ≡ s.mem a

module _ {s : State} {fuel : ℕ} {ends : Ptr → Ptr} {us : List Ptr} {pc : Ptr} {vs : List Ptr}
    {blocks : Ptr → List Block} {fl : List Ptr} (d : Detached s fuel ends us pc vs blocks fl) where
  -- a remaining page is not the one that goes
  other : (p : Ptr) → has p (us ++ vs) ≡ true → p ≢ pc
  other p m e = ground (arith, d.only, e, m)

  -- its addresses are not those of that page
  clear :
      (p : Ptr)
      → has p (us ++ vs) ≡ true
      → (a : ℕ) → p ≤ a
      → a < ends p
      → within pc (ends pc - pc) a ≡ false
  clear p m a low high =
      ground (arith, d.apart p pc (page-mem p pc us vs m) (page_self pc us vs) (other p m))

  -- and neither are its links
  link-clear :
      {m : Memory} {before head : Ptr}
      → Chain m before head (us ++ vs)
      → (a : ℕ) → is_link a (us ++ vs) ≡ true
      → within pc (ends pc - pc) a ≡ false
  link-clear c a h =
      let k = link-element a c h in
      let r = d.region k.element (page-mem k.element pc us vs k.listed) in
      let below = r.below in
      clear k.element k.listed a (ground (arith, k.place)) (ground (arith, k.place))

page-pos :
    {m : Memory} {before head : Ptr} (us : List Ptr) (pc : Ptr) (vs : List Ptr)
    → Chain m before head (us ++ pc ∷ vs)
    → 0 < pc
page-pos us pc vs c = let (next, a) = around us c in omega (arith, a.el)

module _ {s t : State} {fuel : ℕ} {ends : Ptr → Ptr} {us : List Ptr} {pc : Ptr} {vs : List Ptr}
    {blocks : Ptr → List Block} {fl : List Ptr} (d : Detached s fuel ends us pc vs blocks fl)
    (g : Gone s t ends us pc vs) where
  -- the words of a page are as before, but for its two links
  body :
      (p : Ptr)
      → has p (us ++ vs) ≡ true
      → (a : ℕ) → p ≤ a
      → a < ends p
      → a ≢ p
      → a ≢ p + 8
      → t.mem a ≡ s.mem a
  body p m a low high ne ne8 =
      g.words a (clear d p m a low high) (elim (Bool-cases (is_link a (us ++ vs))) [
        | inr out ↦ out
        | inl link ↦
            let k = link-element a g.pages link in
            let r = d.region k.element (page-mem k.element pc us vs k.listed) in
            absurd (elim (ℕ_discrete k.element p) [
              | yes e ↦ ground (arith, k.place)
              | no apart ↦ ground (
                arith,
                k.place,
                r.below,
                d.apart k.element p (page-mem k.element pc us vs k.listed) (page-mem p pc us vs m),
              )
            ])
      ])

  -- a link of a block of the free list lies in the body of a remaining page
  link-kept : (a : ℕ) → is_link a fl ≡ true → t.mem a ≡ s.mem a
  link-kept a h =
      let k = link-element a d.chain h in
      let (p, m, low, high) = d.owner k.element k.listed in
      let r = d.region p (page-mem p pc us vs m) in
      let end : ends p % 16 ≡ 0 = omega (arith, r.page_aligned, r.whole, r.below) in
      let high' : a < ends p = ground (arith, k.place, k.aligned) in
      let low' : p + 32 ≤ a = ground (arith, k.place) in
      body p m a (omega arith) high' (omega arith) (omega arith)

  drop-ends : All (λ p. t.mem (p + 24) ≡ some (ends p)) (us ++ vs)
  drop-ends = every_listed (us ++ vs) λ p m.
      let r = d.region p (page-mem p pc us vs m) in
      body p m (p + 24) (omega arith) (omega (arith, r.below)) (omega arith) (omega arith)
      ∙ PageAt.page_end (PageInv.here (d.page p m))

  drop-enough : length (us ++ vs) < fuel
  drop-enough = omega (arith, d.enough, length-append {0} us vs, length-append {0} us (pc ∷ vs))

  drop-page :
      (p : Ptr)
      → has p (us ++ vs) ≡ true
      → PageInv t fuel (view t ends (us ++ vs) fl) p (ends p) (blocks p) fl
  drop-page p m =
      let old = d.page p m in
      let r = d.region p (page-mem p pc us vs m) in
      let below = r.below in
      record {
        here = record {
          listed = record { chain = g.pages; ends_at = drop-ends };
          enough = drop-enough;
          ne_null = old.here.ne_null;
          page_end =
              body p m (p + 24) (omega arith) (omega arith) (omega arith) (omega arith)
              ∙ old.here.page_end;
          word = page_end_word p (us ++ vs) m;
          found = λ a low high.
              first_page-drop ends a us pc vs p (old.here.found a low high) (other d p m);
          apart = λ a low high. ground (
            arith,
            old.here.apart a low high,
            is_page_word-append a us vs,
            is_page_word-append a us (pc ∷ vs),
          );
        };
        aligned = old.aligned;
        mapped = λ a lo hi. elim (Bool-cases (is_link a (us ++ vs))) [
          | inl link ↦ Chain-mapped a g.pages link
          | inr out ↦
              let (v, e) = old.mapped a lo hi in (v, g.words a (clear d p m a lo hi) out ∙ e)
        ];
        tiles =
            Tiles-frame s.mem t.mem (p + 32) (ends p) (blocks p) old.tiles
              λ a lo hi o. body p m a (omega arith) hi (omega arith) (omega arith);
        chain = rw (g.head) (Chain.frame d.chain link-kept);
        member = old.member;
        links = λ a h.
            ground
              (arith, old.links a, is_page_word-append a us vs, is_page_word-append a us (pc ∷ vs));
        elsewhere = Elsewhere-refl t fl (p + 32) (ends p);
        keeps = KeepsPage-none p (blocks p);
      }

  drop-Region : (p : Ptr) → has p (us ++ vs) ≡ true → Region t p (ends p)
  drop-Region p m =
      let r = d.region p (page-mem p pc us vs m) in
      record {
        page_aligned = r.page_aligned;
        whole = r.whole;
        below = r.below;
        bound = r.bound;
        size =
            body p m (p + 16) (omega arith) (omega (arith, r.below)) (omega arith) (omega arith)
            ∙ r.size;
        table = λ q low high.
            g.table q ∙ rw (clear d p m q low (omega (arith, r.below))) (r.table q low high);
      }

  drop-HeapInv : HeapInv t fuel ends (us ++ vs) blocks fl
  drop-HeapInv = record {
    page = drop-page;
    region = drop-Region;
    apart = λ p p' m m'. d.apart p p' (page-mem p pc us vs m) (page-mem p' pc us vs m');
    owner = d.owner;
    listed = record { chain = g.pages; ends_at = drop-ends };
    enough = drop-enough;
    chain = rw (g.head) (Chain.frame d.chain link-kept);
    table = g.list;
  }

-- The page list and the region of a detached page are given back: the heap is well-formed without it, and
-- only links of the page list and the region's words have changed.
pub give_back-HeapInv :
    (os : Os) {s : State} {fuel : ℕ} {ends : Ptr → Ptr} {us : List Ptr} {pc : Ptr} {vs : List Ptr}
    {blocks : Ptr → List Block} {fl : List Ptr}
    → Detached s fuel ends us pc vs blocks fl
    → os.munmap_succeeds pc (ends pc - pc) ≡ true
    → Returns
        (λ _ t.
          HeapInv t fuel ends (us ++ vs) blocks fl
          × ((a : ℕ)
              → within pc (ends pc - pc) a ≡ false
              → is_link a (us ++ pc ∷ vs) ≡ false
              → t.mem a ≡ s.mem a)
          × Taken (within pc (ends pc - pc)) s t
          × StaysNone s t)
        ((unlink_page pc >> mem_unmap os pc (ends pc - pc)) s)
give_back-HeapInv os {s} {ends} {us} {pc} {vs} d succeeds =
    let r = d.region pc (page_self pc us vs) in
    let pos : 0 < pc = page-pos us pc vs (Pages.chain d.listed) in
    Returns.bind (unlink-Chain s us vs pc (Pages.chain d.listed)) λ _ u l.
      let table : u.pagemap ≡ s.pagemap = ap (λ (v : State). v.pagemap) l.rest in
      let mapped : RegionMapped pc (ends pc - pc) u.pagemap = rw table r.table in
      Returns.mono
        (mem_unmap-TableInv os pc (ends pc - pc) u pos r.page_aligned r.whole mapped succeeds
          (rw table d.table))
        λ _ t (flags, mem, kept, list).
          let heads : t.page_list_head ≡ u.page_list_head =
            ap (λ (v : State). v.page_list_head) kept in
          let free : t.free_list_head ≡ u.free_list_head =
            ap (λ (v : State). v.free_list_head) kept in
          let free' : u.free_list_head ≡ s.free_list_head =
            ap (λ (v : State). v.free_list_head) l.rest in
          let words : (a : ℕ)
              → within pc (ends pc - pc) a ≡ false
              → is_link a (us ++ vs) ≡ false
              → t.mem a ≡ s.mem a =
            λ a out link. mem a ∙ (rw out refl ∙ l.same a link) in
          (
            drop-HeapInv d (record {
              pages =
                  rw heads (Chain.frame l.chain λ a h. mem a ∙ rw (link-clear d l.chain a h) refl);
              head = free ∙ free';
              list = list;
              table = λ q. flags q ∙ rw table refl;
              words = words;
            }),
            λ a out link.
                words a out (ground (arith, is_link-append a us vs, is_link-append a us (pc ∷ vs))),
            record { table = λ q. flags q ∙ rw table refl; words = λ a out. mem a ∙ rw out refl },
            λ a out. elim (Bool-cases (is_link a (us ++ vs))) [
              | inl link ↦
                  let (v, e) =
                    Chain-mapped a (Pages.chain d.listed)
                      (ground (arith, is_link-append a us vs, is_link-append a us (pc ∷ vs))) in
                  absurd (cc (e, out))
              | inr other ↦ mem a ∙ ground (arith, l.same a other ∙ out)
            ],
          )
