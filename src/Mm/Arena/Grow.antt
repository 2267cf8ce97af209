-- ===== src/Mm/Arena/Grow.antt =====
-- The heap after `mm_malloc` has formatted a new region: one more page, which is off the free list.
use uof_ufall.Base.{
  ℕ, suc, ◌+◌, ◌-◌, ◌%◌, ◌^◌, ◌≤◌, ◌<◌, ◌≡◌, ◌≢◌, ◌⊎◌, refl, true, false, some, ◌∷◌, [], List,
  arith, inl, inr, if◌then◌else◌, Bool-cases, length, ◌∙◌, eq→==, sym, ap,
}
use native.Mathlib.Decide.{ℕ_discrete}
use uof_ufall.Machine.{Ptr, null, State, within}
use uof_ufall.Memlib.Map.{Vacant}
use uof_ufall.Memlib.Table.{TableInv}
use uof_ufall.Pagemap.{pagemap_is_mapped}
use uof_ufall.Mm.Arena.{view, Region, HeapInv}
use uof_ufall.Mm.Arena.Blocks.{every_listed}
use uof_ufall.Mm.Arena.Update.{Others}
use uof_ufall.Mm.Arena.Vacant.{
  put_end, outside_pages, outside_links, other_end, new-PageAt, old-PageAt,
}
use uof_ufall.Mm.Blocks.Elsewhere.{Elsewhere-refl}
use uof_ufall.Mm.Blocks.Fields.{Mapped}
use uof_ufall.Mm.Blocks.Footer.{PageAt}
use uof_ufall.Mm.Heap.{Block, PageInv}
use uof_ufall.Mm.Heap.Keeps.{KeepsPage-none, KeepsHole-none}
use uof_ufall.Mm.Heap.Page.{Hole, link-element, Chain-mapped}
use uof_ufall.Mm.Heap.Tiles.{Tiles-frame}
use uof_ufall.Mm.Lists.Around.{link_of_mem}
use uof_ufall.Mm.Lists.Chain
use uof_ufall.Mm.Lists.Chain.{Chain, has, is_link}
use uof_ufall.Mm.Lists.Chunk.{Pages, is_page_word, link-page_word}

-- the state `u` after the region was obtained and formatted
pub record Formatted (s : State) (pages : List Ptr) (pc size : ℕ) (u : State) : Type 0 where
  pub kept : (a v : ℕ) → s.mem a ≡ some v → is_link a pages ≡ false → u.mem a ≡ some v
  pub mapped : Mapped u.mem pc (pc + size)
  pub list : Chain u.mem null u.page_list_head (pc ∷ pages)
  pub page_size : u.mem (pc + 16) ≡ some size
  pub page_end : u.mem (pc + 24) ≡ some (pc + size)
  pub free_head : u.free_list_head ≡ s.free_list_head
  pub flags :
      (q : ℕ)
      → pagemap_is_mapped q u.pagemap
        ≡ (if within pc size q then true else pagemap_is_mapped q s.pagemap)
  pub table : TableInv u.pagemap

module _ {s : State} {fuel : ℕ} {ends : Ptr → Ptr} {pages : List Ptr} {blocks : Ptr → List Block}
    {fl : List Ptr} (i : HeapInv s fuel ends pages blocks fl) where
  -- a link of the page list in a page is one of its own
  pub own-link :
      (p : Ptr)
      → has p pages ≡ true
      → (a : ℕ) → p ≤ a
      → a < ends p
      → is_link a pages ≡ true
      → ((a ≡ p) ⊎ (a ≡ p + 8))
  own-link p h a low high link =
      let k = link-element a (Pages.chain i.listed) link in
      let below = Region.below (i.region k.element k.listed) in
      elim (ℕ_discrete k.element p) [
        | yes e ↦ ground (arith, k.place)
        | no ne ↦ ground (arith, k.place, i.apart k.element p k.listed h ne)
      ]

  -- a link of the free list lies in a page, and no page header has one
  free-links : (a : ℕ) → is_link a fl ≡ true → is_page_word a pages ≡ false
  free-links a h =
      let k = link-element a i.chain h in
      let (p, own, low, high) = i.owner k.element k.listed in PageInv.links (i.page p own) a h

  module _ {pc size : ℕ} {u : State} (vacant : Vacant pc size s.mem)
      (f : Formatted s pages pc size u) (large : 32 < size) (pos : 0 < pc)
      (enough : suc (length pages) < fuel) where
    -- the words of an old page are as before, but for its two links
    pub old_words :
        (p : Ptr)
        → has p pages ≡ true
        → (a : ℕ) → p ≤ a
        → a < ends p
        → a ≢ p
        → a ≢ p + 8
        → u.mem a ≡ s.mem a
    old_words p h a low high ne ne8 =
        let (v, e) = PageInv.mapped (i.page p h) a low high in
        f.kept a v e (ground (arith, own-link p h a low high)) ∙ sym e

    -- links of the free list are as before
    free_words : (a : ℕ) → is_link a fl ≡ true → u.mem a ≡ s.mem a
    free_words a h =
        let (v, e) = Chain-mapped a i.chain h in
        f.kept a v e (ground (arith, free-links a h, link-page_word a pages)) ∙ sym e

    new-links : (a : ℕ) → is_link a fl ≡ true → is_page_word a (pc ∷ pages) ≡ false
    new-links a h = ground (arith, free-links a h, outside_links i pc size vacant a h)

    pub grown : Pages u.mem (put_end ends pc (pc + size)) u.page_list_head (pc ∷ pages)
    grown = record {
      chain = f.list;
      ends_at = (
        ground (arith, f.page_end),
        every_listed pages λ p h.
            let below = Region.below (i.region p h) in
            old_words p h (p + 24) (omega arith) (omega arith) (omega arith) (omega arith)
            ∙ (PageAt.page_end (PageInv.here (i.page p h))
                ∙ ap some (sym (other_end i pc size vacant p (pc + size) (omega arith) h))),
      );
    }

    grown-page :
        (p : Ptr)
        → has p pages ≡ true
        → PageInv u fuel
            (view u (put_end ends pc (pc + size)) (pc ∷ pages) fl)
            p
            (ends p)
            (blocks p)
            fl
    grown-page p m =
        let old = i.page p m in
        let below = Region.below (i.region p m) in
        record {
          here =
              old-PageAt i pc size vacant u u large pos enough grown p m
                (old_words p m (p + 24) (omega arith) (omega arith) (omega arith) (omega arith));
          aligned = old.aligned;
          mapped = λ a lo hi. elim (Bool-cases (is_link a (pc ∷ pages))) [
            | inl k ↦ Chain-mapped a f.list k
            | inr k ↦ let (v, e) = old.mapped a lo hi in (v, f.kept a v e (ground arith))
          ];
          tiles =
              Tiles-frame s.mem u.mem (p + 32) (ends p) (blocks p) old.tiles
                λ a lo hi o. old_words p m a (omega arith) hi (omega arith) (omega arith);
          chain = rw (f.free_head) (Chain.frame i.chain free_words);
          member = old.member;
          links = new-links;
          elsewhere = Elsewhere-refl u fl (p + 32) (ends p);
          keeps = KeepsPage-none p (blocks p);
        }

    grown-Region : (p : Ptr) → has p pages ≡ true → Region u p (ends p)
    grown-Region p m =
        let r = i.region p m in
        let below = r.below in
        record {
          page_aligned = r.page_aligned;
          whole = r.whole;
          below = r.below;
          bound = r.bound;
          size =
              old_words p m (p + 16) (omega arith) (omega arith) (omega arith) (omega arith)
              ∙ r.size;
          table = λ q low high. f.flags q ∙ ground (arith, r.table q);
        }

    new-Region : pc % 4096 ≡ 0 → size % 4096 ≡ 0 → pc + size ≤ 2 ^ 64 → Region u pc (pc + size)
    new-Region al whole bound = record {
      page_aligned = al;
      whole = omega arith;
      below = omega arith;
      bound = bound;
      size = ground (arith, f.page_size);
      table = λ q low high. f.flags q ∙ ground arith;
    }

    end' : (p : Ptr) → has p pages ≡ true → put_end ends pc (pc + size) p ≡ ends p
    end' p m = other_end i pc size vacant p (pc + size) (omega arith) m

    pub grown-Others :
        pc % 4096 ≡ 0
        → size % 4096 ≡ 0
        → pc + size ≤ 2 ^ 64
        → Others u fuel (put_end ends pc (pc + size)) (pc ∷ pages) blocks fl pc
    grown-Others al whole bound = record {
      page = λ p m ne.
          let old : has p pages ≡ true = ground arith in rw (end' p old) (grown-page p old);
      region = λ p m. elim (ℕ_discrete p pc) [
        | yes e ↦ rw (e, eq→== pc pc refl) (new-Region al whole bound)
        | no ne ↦
            let old : has p pages ≡ true = ground arith in rw (end' p old) (grown-Region p old)
      ];
      apart = λ p p' m m' ne. ground (
        arith,
        outside_pages i pc size vacant p,
        outside_pages i pc size vacant p',
        i.apart p p',
      );
      owner = λ a h.
          let (p, own, low, high) = i.owner a h in (p, ground arith, low, rw (end' p own) high);
      links = new-links;
      table = f.table;
    }

    pub grown-Hole :
        pc % 4096 ≡ 0
        → Hole u fuel
            (view u (put_end ends pc (pc + size)) (pc ∷ pages) fl)
            pc
            (pc + size)
            []
            (pc + 32)
            (size - 32)
            []
            fl
    grown-Hole al = record {
      here = new-PageAt i pc size vacant u u large pos enough grown;
      aligned = omega arith;
      mapped = f.mapped;
      front = refl;
      back = omega arith;
      chain = rw (f.free_head) (Chain.frame i.chain free_words);
      member = λ a low high. elim (Bool-cases (has a fl)) [
        | inl h ↦ absurd (outside_links i pc size vacant a (link_of_mem a fl h).0 low high)
        | inr h ↦ h
      ];
      links = new-links;
      elsewhere = Elsewhere-refl u fl (pc + 32) (pc + size);
      keeps = KeepsHole-none pc [] (pc + 32) (size - 32) [];
    }
