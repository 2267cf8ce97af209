-- ===== src/Mm/Arena/Format.antt =====
-- `mm_malloc` of mm.c formats a region that `mem_map` has obtained.
use uof_ufall.Base.{
  ℕ, suc, ◌+◌, ◌-◌, ◌%◌, ◌^◌, ◌≤◌, ◌<◌, ◌≡◌, refl, true, some, ◌∷◌, List, arith, inl, inr, sub64,
  Bool-cases, length, ◌∙◌, ap,
}
use uof_ufall.Machine.{Ptr, null, State, Memory, write, ◌>>◌}
use uof_ufall.Machine.Returns
use uof_ufall.Machine.Returns.{Returns, returns}
use uof_ufall.Memlib.Map.{Vacant, Obtained}
use uof_ufall.Mm.Blocks.{write_footer}
use uof_ufall.Mm.Layout.{set_size, set_free}
use uof_ufall.Mm.{format_page}
use uof_ufall.Pagemap.{pagemap_is_mapped}
use uof_ufall.Mm.Arena.{HeapInv}
use uof_ufall.Mm.Arena.Grow.{Formatted, grown}
use uof_ufall.Mm.Arena.Vacant.{outside_vacant, fresh, new-PageAt}
use uof_ufall.Mm.Blocks.Fields.{Mapped, with_flag, set_size-ok, set_free-ok, write-Mapped}
use uof_ufall.Mm.Blocks.Footer.{write_footer-ok}
use uof_ufall.Mm.Heap.{Block}
use uof_ufall.Mm.Heap.Page.{Chain-mapped}
use uof_ufall.Mm.Lists.Chain
use uof_ufall.Mm.Lists.Chain.{Chain, Element, has, is_link}
use uof_ufall.Mm.Lists.Chunk.{Pages}
use uof_ufall.Mm.Lists.Push.{push-Chain}
use uof_ufall.Mm.Lists.Unlink.{PageListIs}

-- the four words of a page's header
unfoldable header_written : Memory → (pc head size : ℕ) → Memory
header_written m pc head size =
    write (write (write (write m pc null) (pc + 8) head) (pc + 16) size) (pc + 24) (pc + size)

module _ {s : State} {fuel : ℕ} {ends : Ptr → Ptr} {pages : List Ptr} {blocks : Ptr → List Block}
    {fl : List Ptr} (i : HeapInv s fuel ends pages blocks fl) (pc size : ℕ)
    (vacant : Vacant pc size s.mem) where
  -- the links of the page list are outside of the region
  outside_page_links : (a : ℕ) → is_link a pages ≡ true → pc ≤ a → a < pc + size → ⊥
  outside_page_links a h low high =
      let (v, e) = Chain-mapped a (Pages.chain i.listed) h in
      outside_vacant i pc size vacant a v e low high

  -- a write behind the header
  Formatted-write :
      {u : State} (a v : ℕ)
      → Formatted s pages pc size u
      → pc + 32 ≤ a
      → a < pc + size
      → Formatted s pages pc size (record u { mem = write u.mem a v })
  unfolding write
  Formatted-write {u} a v f low high = record {
    kept = λ b w e out. ground (arith, f.kept b w e, vacant a);
    mapped = write-Mapped u.mem a v pc (pc + size) f.mapped;
    list = Chain.frame f.list λ b h. ground (arith, outside_page_links a);
    page_size = ground (arith, f.page_size);
    page_end = ground (arith, f.page_end);
    free_head = f.free_head;
    flags = f.flags;
    table = f.table;
  }

  module _ {s1 : State} (o : Obtained s size pc s1) (large : 96 ≤ size) (pos : 0 < pc)
      (al : pc % 16 ≡ 0) where
    -- the state after the header was written
    headed : State
    headed = record s1 { mem = header_written s1.mem pc s1.page_list_head size }

    headed-Chain : Chain headed.mem null s1.page_list_head pages
    unfolding headed header_written write
    headed-Chain = rw (o.page_head) (
        Chain.frame (Pages.chain i.listed) λ a h.
          let (v, e) = Chain-mapped a (Pages.chain i.listed) h in
          ground (arith, outside_page_links a h, o.kept a v e))

    headed-Mapped : Mapped headed.mem pc (pc + size)
    unfolding headed header_written
    headed-Mapped = write-Mapped _ _ _ pc (pc + size) (
        write-Mapped _ _ _ pc (pc + size) (
          write-Mapped _ _ _ pc (pc + size)
            (write-Mapped _ _ _ pc (pc + size) λ a low high. (0, o.zeros a low high))))

    -- and after the page was put on the page list
    pushed-Formatted : (u : State) → PageListIs headed (pc ∷ pages) u → Formatted s pages pc size u
    unfolding headed header_written write
    pushed-Formatted u l =
        let table : u.pagemap ≡ s1.pagemap = ap (λ (v : State). v.pagemap) l.rest in
        let free : u.free_list_head ≡ s1.free_list_head =
          ap (λ (v : State). v.free_list_head) l.rest in
        record {
          kept = λ a v e out.
              l.same a (ground (arith, outside_vacant i pc size vacant a v e))
              ∙ ground (arith, o.kept a v e, outside_vacant i pc size vacant a v e);
          mapped = λ a low high. elim (Bool-cases (is_link a (pc ∷ pages))) [
            | inl k ↦ Chain-mapped a l.chain k
            | inr k ↦ let (v, e) = headed-Mapped a low high in (v, l.same a k ∙ e)
          ];
          list = l.chain;
          page_size =
              l.same (pc + 16) (ground (arith, outside_page_links (pc + 16))) ∙ ground arith;
          page_end = l.same (pc + 24) (ground (arith, outside_page_links (pc + 24))) ∙ ground arith;
          free_head = free ∙ o.free_head;
          flags = λ q. ap (pagemap_is_mapped q) table ∙ o.flags q;
          table = rw table o.list;
        }

    -- the one block that fills the page
    block-Formatted :
        {u : State}
        → Formatted s pages pc size u
        → suc (length pages) < fuel
        → Returns
            (λ _ t.
              Formatted s pages pc size t
              × (t.mem (pc + 32) ≡ some (size - 32))
              × ((w : ℕ) × (t.mem (pc + 32 + 8) ≡ some w)))
            ((set_size (pc + 32) (size - 32) >> (set_free (pc + 32) >> write_footer fuel (pc + 32)))
              u)
    unfolding write
    block-Formatted {u} f enough =
        let n = size - 32 in
        let (v, ev) = f.mapped (pc + 32) (omega arith) (omega arith) in
        let f1 = Formatted-write (pc + 32) n f (omega arith) (omega arith) in
        let u1 : State = record u { mem = write u.mem (pc + 32) n } in
        let (w, ew) = Formatted.mapped f1 (pc + 32 + 8) (omega arith) (omega arith) in
        let f2 = Formatted-write (pc + 32 + 8) (with_flag w 0) f1 (omega arith) (omega arith) in
        let u2 : State = record u1 { mem = write u1.mem (pc + 32 + 8) (with_flag w 0) } in
        let last : ℕ = pc + 32 + n - 16 in
        let (x, ex) = Formatted.mapped f2 last (omega arith) (omega arith) in
        let f3 = Formatted-write last n f2 (omega arith) (omega arith) in
        let listed = grown i vacant f2 (omega arith) pos enough in
        let at = new-PageAt i pc size vacant u2 u2 (omega arith) pos enough listed in
        Returns.eq_then _ _ _ (set_size-ok u (pc + 32) n ev) (
          Returns.eq_then _ _ _ (set_free-ok u1 (pc + 32) ew) (
            Returns.of_eq tt _
              (write_footer-ok u2 fuel (pc + 32) pc (pc + size) at (omega arith) (omega arith)
                (ground arith) ex (omega arith) (omega arith))
              (f3, ground arith, (with_flag w 0, ground arith))))

    -- `format_page` of the region ends without fault or abort.
    pub format-Formatted :
        suc (length pages) < fuel
        → size < 2 ^ 64
        → Returns
            (λ _ u.
              Formatted s pages pc size u
              × (u.mem (pc + 32) ≡ some (size - 32))
              × ((w : ℕ) × (u.mem (pc + 32 + 8) ≡ some w)))
            (format_page fuel pc size s1)
    unfolding format_page headed header_written write
    format-Formatted enough bound =
        let rest : sub64 size 32 ≡ size - 32 = omega arith in
        rw rest (
          Returns.store_then _ _ _ _ (o.zeros pc (omega arith) (omega arith)) (
            Returns.store_then _ _ _ {v = 0} _ (ground (arith, o.zeros (pc + 8))) (
              Returns.store_then _ _ _ {v = 0} _ (ground (arith, o.zeros (pc + 16))) (
                Returns.store_then _ _ _ {v = 0} _ (ground (arith, o.zeros (pc + 24))) (
                  Returns.bind
                    (push-Chain headed pc (record { ne_null = omega arith; aligned = al })
                      (ground arith) (ground arith) headed-Chain refl
                      (fresh i pc size vacant (omega arith)))
                    λ _ u l. block-Formatted (pushed-Formatted u l) enough)))))
