-- ===== src/Mm/Arena/Detach.antt =====
-- The one free block of a page is taken off the free list, so that the page can be given back.
use uof_ufall.Base.{
  inl, inr, Bool-cases, sym, ◌∙◌, ℕ, Bool, ◌+◌, ◌≤◌, ◌<◌, ◌≡◌, ◌≢◌, refl, true, false, List, [],
  ◌∷◌, ◌++◌, arith, subst, ◌⊎◌, length, ap,
}
use native.Mathlib.Decide.{ℕ_discrete}
use uof_ufall.Machine.{Ptr, null, State}
use uof_ufall.Machine.Returns
use uof_ufall.Machine.Returns.{Returns}
use uof_ufall.Mm.Arena.{view, Region, HeapInv}
use uof_ufall.Memlib.Table.{TableInv}
use uof_ufall.Mm.Arena.Update.{Kept, HeapInv-Others, other-page, update-Region, update-owner}
use uof_ufall.Mm.Arena.Clear.{Clear, Clear-KeepsPage, PageInv-keep, Hole-forget}
use uof_ufall.Mm.Blocks.Footer.{PageList, PageAt}
use uof_ufall.Mm.Heap.{Block, block, PageInv}
use uof_ufall.Mm.Heap.Delisting.{Listed, free-Listed, remove-Hole}
use uof_ufall.Mm.Arena.Taken.{StaysNone}
use uof_ufall.Mm.Heap.Page.{Hole, Chain-mapped}
use uof_ufall.Mm.Lists.{remove_free_block}
use uof_ufall.Mm.Lists.Around.{has-append, has-split, around}
use uof_ufall.Mm.Lists.Chain.{Chain, has, is_link}
use uof_ufall.Mm.Lists.Chunk.{Pages}

-- the heap without the page `pc`, which is still on the page list and has no block on the free list
pub record Detached (s : State) (fuel : ℕ) (ends : Ptr → Ptr) (us : List Ptr) (pc : Ptr)
    (vs : List Ptr) (blocks : Ptr → List Block) (fl : List Ptr) : Type 0 where
  pub page :
      (p : Ptr)
      → has p (us ++ vs) ≡ true
      → PageInv s fuel (view s ends (us ++ pc ∷ vs) fl) p (ends p) (blocks p) fl
  pub region : (p : Ptr) → has p (us ++ pc ∷ vs) ≡ true → Region s p (ends p)
  pub apart :
      (p p' : Ptr)
      → has p (us ++ pc ∷ vs) ≡ true
      → has p' (us ++ pc ∷ vs) ≡ true
      → p ≢ p'
      → ((ends p ≤ p') ⊎ (ends p' ≤ p))
  pub owner :
      (a : Ptr)
      → has a fl ≡ true
      → (p : Ptr) × (has p (us ++ vs) ≡ true) × (p + 32 ≤ a) × (a < ends p)
  pub chain : Chain s.mem null s.free_list_head fl
  pub listed : Pages s.mem ends s.page_list_head (us ++ pc ∷ vs)
  pub enough : length (us ++ pc ∷ vs) < fuel
  pub only : has pc (us ++ vs) ≡ false
  pub table : TableInv s.pagemap

pub page-mem :
    (p pc : Ptr) (us vs : List Ptr) → has p (us ++ vs) ≡ true → has p (us ++ pc ∷ vs) ≡ true
page-mem p pc us vs h = ground (arith, has-append p us vs, has-append p us (pc ∷ vs))

pub page_self : (pc : Ptr) (us vs : List Ptr) → has pc (us ++ pc ∷ vs) ≡ true
page_self pc us vs = ground (arith, has-append pc us (pc ∷ vs))

module _ {s : State} {fuel : ℕ} {ends : Ptr → Ptr} (us : List Ptr) (pc : Ptr) (vs : List Ptr)
    {blocks : Ptr → List Block} {fl : List Ptr}
    (i : HeapInv s fuel ends (us ++ pc ∷ vs) blocks fl) where
  own : has pc (us ++ pc ∷ vs) ≡ true
  own = page_self pc us vs

  only-once : has pc (us ++ vs) ≡ false
  only-once =
      let chain = Pages.chain (PageAt.listed (PageInv.here (i.page pc own))) in
      let (next, a) = around us chain in ground (arith, a.out, a.out', has-append pc us vs)

  detached :
      {n : ℕ} {t : State} {gl : List Ptr}
      → Hole t fuel (view s ends (us ++ pc ∷ vs) fl) pc (ends pc) [] (pc + 32) n [] gl
      → Detached t fuel ends us pc vs blocks gl
  detached {n} {t} {gl} h =
      let k : Kept t fuel (view s ends (us ++ pc ∷ vs) fl) pc (ends pc) gl = record {
        here = h.here;
        chain = h.chain;
        links = h.links;
        elsewhere = h.elsewhere;
      } in
      let o = HeapInv-Others i own in
      let table : t.pagemap ≡ s.pagemap = ap (λ (u : State). u.pagemap) h.elsewhere.rest in
      record {
        page = λ p m.
            other-page o own k p (page-mem p pc us vs m) λ e. ground (arith, only-once, e, m);
        region = update-Region o own k;
        apart = i.apart;
        owner = λ a m.
            let (p, mem, low, high) = update-owner o own k a m in
            (
              p,
              elim (ℕ_discrete p pc) [
                | yes e ↦ cc (h.member a (omega arith) (subst (λ z. a < ends z) e high), m)
                | no ne ↦ ground (arith, has-append p us vs, has-append p us (pc ∷ vs), mem)
              ],
              low,
              high,
            );
        chain = h.chain;
        listed = h.here.listed;
        enough = h.here.enough;
        only = only-once;
        table = rw table i.table;
      }

  pub detach-Detached :
      (n : ℕ)
      → blocks pc ≡ block n false ∷ []
      → (keep : ℕ → Bool) → Clear keep (us ++ pc ∷ vs) blocks
      → Returns
          (λ _ t.
            (gl : List Ptr) × Detached t fuel ends us pc vs blocks gl
            × ((a : ℕ) → keep a ≡ true → t.mem a ≡ s.mem a)
            × StaysNone s t
            × (t.pagemap ≡ s.pagemap))
          (remove_free_block (pc + 32 + 16) s)
  detach-Detached n e keep clear =
      let l : PageList = record (view s ends (us ++ pc ∷ vs) fl) { keep = keep } in
      let page : PageInv s fuel l pc (ends pc) (block n false ∷ []) fl =
        subst (λ z. PageInv s fuel l pc (ends pc) z fl) e
          (PageInv-keep keep (i.page pc own) (Clear-KeepsPage i keep clear pc own)) in
      let (is, listed) = free-Listed [] n [] (pc + 32) page refl in
      let large = is.large in
      let mem : has (pc + 32 + 16) fl ≡ true =
        ground (arith, page.member (pc + 32 + 16), listed.high, listed.back) in
      let (as', bs', split) = has-split (pc + 32 + 16) fl mem in
      Returns.mono
        (remove-Hole (pc + 32 + 16) as' bs'
          (subst (Listed s fuel l pc (ends pc) [] (pc + 32) n [] (pc + 32 + 16)) split listed))
        λ _ t (hole, _, f). (
          as' ++ bs',
          detached (Hole-forget hole),
          hole.keeps.kept,
          λ a out. elim (Bool-cases (is_link a (as' ++ (pc + 32 + 16) ∷ bs'))) [
            | inl link ↦
                let (v, e) =
                  Chain-mapped a i.chain (subst (λ z. is_link a z ≡ true) (sym split) link) in
                absurd (cc (e, out))
            | inr other ↦ f.same a other ∙ out
          ],
          ap (λ (v : State). v.pagemap) f.rest,
        )
