-- ===== src/Mm/Arena/Update.antt =====
-- An operation inside of one page keeps the heap: what `PageInv` says of the page after it, compared
-- with the state before it, is enough for all pages.
use uof_ufall.Base.{
  ℕ, ◌+◌, ◌%◌, ◌≤◌, ◌<◌, ◌≡◌, ◌≢◌, refl, true, false, ◌&&◌, List, [], ◌∷◌, arith, ◌∙◌, sym, ap, inl,
  inr, ◌⊎◌, leb, ltb, Bool-cases, ne→==, eq→==,
}
use native.Mathlib.Decide.{ℕ_discrete}
use uof_ufall.Machine.{Ptr, null, State}
use uof_ufall.Memlib.Table.{TableInv}
use uof_ufall.Mm.Arena.{view, Region, HeapInv, put_blocks}
use uof_ufall.Mm.Blocks.Elsewhere.{Outside, Elsewhere, Elsewhere-refl}
use uof_ufall.Mm.Blocks.Footer.{PageList, PageAt}
use uof_ufall.Mm.Heap.{Block, PageInv, frees}
use uof_ufall.Mm.Heap.Keeps.{KeepsPage-none}
use uof_ufall.Mm.Heap.Page.{link-element, Chain-mapped}
use uof_ufall.Mm.Heap.Tiles.{Tiles-frame}
use uof_ufall.Mm.Lists.Around.{link_of_mem}
use uof_ufall.Mm.Lists.Chain.{Chain, has, is_link}
use uof_ufall.Mm.Lists.Chunk.{is_page_word}

-- a link inside of a page is one of a free block of the page
pub PageInv-link :
    {s : State} {fuel : ℕ} {l : PageList} {pc end : Ptr} {bs : List Block} {fl : List Ptr} (a : ℕ)
    → PageInv s fuel l pc end bs fl
    → end % 16 ≡ 0
    → pc ≤ a
    → a < end
    → is_link a fl ≡ true
    → is_link a (frees (pc + 32) bs) ≡ true
PageInv-link {pc} {bs} a i al low high h =
    let k = link-element a i.chain h in
    ground (
      arith,
      i.aligned,
      k.place,
      k.aligned,
      k.listed,
      i.member k.element,
      link_of_mem k.element (frees (pc + 32) bs),
    )

pub page_word_of_mem :
    (p : Ptr) (pages : List Ptr) → has p pages ≡ true → is_page_word (p + 16) pages ≡ true
page_word_of_mem p [] h = cc
page_word_of_mem p (q ∷ pages) h = ground (arith, page_word_of_mem p pages)

-- a page as seen from its own state
rebase :
    {s t : State} {fuel : ℕ} {ends : Ptr → Ptr} {pages : List Ptr} {pc end : Ptr} {bs : List Block}
    {fl gl : List Ptr}
    → PageInv t fuel (view s ends pages fl) pc end bs gl
    → PageInv t fuel (view t ends pages gl) pc end bs gl
rebase {t} {pc} {end} {bs} {gl} i = record {
  here = record {
    listed = i.here.listed;
    enough = i.here.enough;
    ne_null = i.here.ne_null;
    page_end = i.here.page_end;
    word = i.here.word;
    found = i.here.found;
    apart = i.here.apart;
  };
  aligned = i.aligned;
  mapped = i.mapped;
  tiles = i.tiles;
  chain = i.chain;
  member = i.member;
  links = i.links;
  elsewhere = Elsewhere-refl t gl (pc + 32) end;
  keeps = KeepsPage-none pc bs;
}

-- what an operation inside of a page leaves for the other pages
pub record Kept (t : State) (fuel : ℕ) (l : PageList) (pc end : Ptr) (gl : List Ptr) : Type 0 where
  pub here : PageAt t fuel l pc end
  pub chain : Chain t.mem null t.free_list_head gl
  pub links : (a : ℕ) → is_link a gl ≡ true → is_page_word a l.pages ≡ false
  pub elsewhere : Elsewhere l.from l.free (pc + 32) end t gl

PageInv-Kept :
    {t : State} {fuel : ℕ} {l : PageList} {pc end : Ptr} {bs : List Block} {gl : List Ptr}
    → PageInv t fuel l pc end bs gl
    → Kept t fuel l pc end gl
PageInv-Kept j = record { here = j.here; chain = j.chain; links = j.links; elsewhere = j.elsewhere }

-- the heap but for the page `pc` of the page list
pub record Others (s : State) (fuel : ℕ) (ends : Ptr → Ptr) (pages : List Ptr)
    (blocks : Ptr → List Block) (fl : List Ptr) (pc : Ptr) : Type 0 where
  pub page :
      (p : Ptr)
      → has p pages ≡ true
      → p ≢ pc
      → PageInv s fuel (view s ends pages fl) p (ends p) (blocks p) fl
  pub region : (p : Ptr) → has p pages ≡ true → Region s p (ends p)
  pub apart :
      (p p' : Ptr)
      → has p pages ≡ true
      → has p' pages ≡ true
      → p ≢ p'
      → ((ends p ≤ p') ⊎ (ends p' ≤ p))
  pub owner :
      (a : Ptr) → has a fl ≡ true → (p : Ptr) × (has p pages ≡ true) × (p + 32 ≤ a) × (a < ends p)
  pub links : (a : ℕ) → is_link a fl ≡ true → is_page_word a pages ≡ false
  pub table : TableInv s.pagemap

pub HeapInv-Others :
    {s : State} {fuel : ℕ} {ends : Ptr → Ptr} {pages : List Ptr} {blocks : Ptr → List Block}
    {fl : List Ptr} {pc : Ptr}
    → HeapInv s fuel ends pages blocks fl
    → has pc pages ≡ true
    → Others s fuel ends pages blocks fl pc
HeapInv-Others {pc} i own = record {
  page = λ p h ne. i.page p h;
  region = i.region;
  apart = i.apart;
  owner = i.owner;
  links = PageInv.links (i.page pc own);
  table = i.table;
}

module _ {s t : State} {fuel : ℕ} {ends : Ptr → Ptr} {pages : List Ptr} {blocks : Ptr → List Block}
    {fl gl : List Ptr} {pc : Ptr} (i : Others s fuel ends pages blocks fl pc)
    (own : has pc pages ≡ true) (j : Kept t fuel (view s ends pages fl) pc (ends pc) gl) where
  -- a page header has no links, before and after
  word-same :
      (a : ℕ) → Outside a (pc + 32) (ends pc) → is_page_word a pages ≡ true → t.mem a ≡ s.mem a
  word-same a o w = j.elsewhere.same a o (ground (arith, i.links a, w))

  other-Outside :
      (p : Ptr)
      → has p pages ≡ true
      → p ≢ pc
      → (a : ℕ) → p ≤ a
      → a < ends p
      → Outside a (pc + 32) (ends pc)
  other-Outside p h ne a low high = ground (arith, i.apart p pc h own)

  pub other-page :
      (p : Ptr)
      → has p pages ≡ true
      → p ≢ pc
      → PageInv t fuel (view t ends pages gl) p (ends p) (blocks p) gl
  other-page p h ne =
      let old = i.page p h ne in
      let r = i.region p h in
      let out = other-Outside p h ne in
      let al : ends p % 16 ≡ 0 = omega (arith, r.page_aligned, r.whole, r.below) in
      record {
        here = record {
          listed = j.here.listed;
          enough = j.here.enough;
          ne_null = old.here.ne_null;
          page_end =
              word-same (p + 24) (out (p + 24) (omega arith) (omega (arith, r.below))) old.here.word
              ∙ old.here.page_end;
          word = old.here.word;
          found = old.here.found;
          apart = old.here.apart;
        };
        aligned = old.aligned;
        mapped = λ a lo hi. elim (Bool-cases (is_link a fl)) [
          | inl k ↦ Chain-mapped a j.chain (j.elsewhere.links a (out a lo hi) ∙ k)
          | inr k ↦ let (v, e) = old.mapped a lo hi in (v, j.elsewhere.same a (out a lo hi) k ∙ e)
        ];
        tiles = Tiles-frame s.mem t.mem (p + 32) (ends p) (blocks p) old.tiles λ a lo hi o.
            j.elsewhere.same a (out a (omega arith) hi) (ground (arith, PageInv-link a old al));
        chain = j.chain;
        member = λ a lo hi. j.elsewhere.members a (out a lo hi) ∙ old.member a lo hi;
        links = j.links;
        elsewhere = Elsewhere-refl t gl (p + 32) (ends p);
        keeps = KeepsPage-none p (blocks p);
      }

  -- what the state says of a page's region
  pub update-Region : (p : Ptr) → has p pages ≡ true → Region t p (ends p)
  update-Region p h =
      let r = i.region p h in
      let table : t.pagemap ≡ s.pagemap = ap (λ (u : State). u.pagemap) j.elsewhere.rest in
      let outside : Outside (p + 16) (pc + 32) (ends pc) = elim (ℕ_discrete p pc) [
        | yes e ↦ inl (omega arith)
        | no ne ↦ other-Outside p h ne (p + 16) (omega arith) (omega (arith, r.below))
      ] in
      record {
        page_aligned = r.page_aligned;
        whole = r.whole;
        below = r.below;
        bound = r.bound;
        size = word-same (p + 16) outside (page_word_of_mem p pages h) ∙ r.size;
        table = rw table r.table;
      }

  pub update-owner :
      (a : Ptr) → has a gl ≡ true → (p : Ptr) × (has p pages ≡ true) × (p + 32 ≤ a) × (a < ends p)
  update-owner a h = elim (Bool-cases (leb (pc + 32) a && ltb a (ends pc))) [
    | inl inside ↦ (pc, own, ground arith, ground arith)
    | inr outside ↦ i.owner a (sym (j.elsewhere.members a (ground arith)) ∙ h)
  ]

-- Where an operation leaves a page of the heap well-formed, and all else as `PageInv` says, the
-- whole heap is well-formed.
pub Others-update :
    {s t : State} {fuel : ℕ} {ends : Ptr → Ptr} {pages : List Ptr} {blocks : Ptr → List Block}
    {fl gl : List Ptr} {pc : Ptr} {bs : List Block}
    → Others s fuel ends pages blocks fl pc
    → has pc pages ≡ true
    → PageInv t fuel (view s ends pages fl) pc (ends pc) bs gl
    → HeapInv t fuel ends pages (put_blocks blocks pc bs) gl
Others-update {s} {t} {pc} i own j =
    let k = PageInv-Kept j in
    let table : t.pagemap ≡ s.pagemap = ap (λ (u : State). u.pagemap) j.elsewhere.rest in
    record {
      page = λ p h. elim (ℕ_discrete p pc) [
        | yes e ↦ rw (e, eq→== pc pc refl) (rebase j)
        | no ne ↦ rw (ne→== p pc ne) (other-page i own k p h ne)
      ];
      region = update-Region i own k;
      apart = i.apart;
      owner = update-owner i own k;
      listed = j.here.listed;
      enough = j.here.enough;
      chain = j.chain;
      table = rw table i.table;
    }

pub HeapInv-update :
    {s t : State} {fuel : ℕ} {ends : Ptr → Ptr} {pages : List Ptr} {blocks : Ptr → List Block}
    {fl gl : List Ptr} {pc : Ptr} {bs : List Block}
    → HeapInv s fuel ends pages blocks fl
    → has pc pages ≡ true
    → PageInv t fuel (view s ends pages fl) pc (ends pc) bs gl
    → HeapInv t fuel ends pages (put_blocks blocks pc bs) gl
HeapInv-update i own j = Others-update (HeapInv-Others i own) own j
