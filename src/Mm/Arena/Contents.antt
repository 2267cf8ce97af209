-- ===== src/Mm/Arena/Contents.antt =====
-- A client may write to its payloads: the heap is well-formed whatever they hold.
use uof_ufall.Base.{
  some, ℕ, ◌+◌, ◌-◌, ◌≤◌, ◌≡◌, refl, true, List, arith, ◌∙◌, sym, ap, subst, fun_ext, eq→==, ne→==,
  inl, inr, ◌⊎◌, ◌<◌,
}
use native.Mathlib.Decide.{ℕ_discrete}
use mathlib.Core.List.{Memᴰ}
use uof_ufall.Machine.{Ptr, State, write}
use uof_ufall.Machine.Words.{write_other}
use uof_ufall.Mm.Arena.{HeapInv, view, put_blocks}
use uof_ufall.Mm.Arena.Apart.{InPayload}
use uof_ufall.Mm.Arena.Find.{UsedAt, used-page}
use uof_ufall.Mm.Arena.Live.{Payload, live}
use uof_ufall.Mm.Arena.Update.{HeapInv-update}
use uof_ufall.Mm.Blocks.Fields.{Mapped}
use uof_ufall.Mm.Heap.{Block, block, IsBlock, PageInv, behind}
use uof_ufall.Mm.Heap.Tiles.{IsBlock-frame}
use uof_ufall.Mm.Heap.Region.{used-Hole, Hole-write, Hole-used}
use uof_ufall.Mm.Lists.Chain.{has}

-- Only the bytes of `e` hold something else, and what was mapped is mapped still.
pub record Scribbled (s : State) (e : Payload) (t : State) : Type 0 where
  pub rest : t ≡ record s { mem = t.mem }
  pub mapped : (a v : ℕ) → s.mem a ≡ some v → (w : ℕ) × (t.mem a ≡ some w)
  pub same : (a : ℕ) → (InPayload a e → ⊥) → t.mem a ≡ s.mem a

-- one word
pub write-Scribbled :
    (s : State) (r : Payload) (a v : ℕ)
    → InPayload a r
    → Scribbled s r (record s { mem = write s.mem a v })
unfolding write
write-Scribbled s r a v inside = record {
  rest = refl;
  mapped =
      λ b x e. elim (ℕ_discrete b a) [ yes same ↦ (v, ground arith) | no ne ↦ (x, ground arith) ];
  same = λ b out. write_other s.mem a v b λ e. out (rw e inside);
}

put_blocks_same :
    (blocks : Ptr → List Block) (pc : Ptr) (bs : List Block)
    → blocks pc ≡ bs
    → put_blocks blocks pc bs ≡ blocks
put_blocks_same blocks pc bs e = fun_ext λ p. elim (ℕ_discrete p pc) [
  | yes i ↦ rw (i, eq→== pc pc refl) (sym e)
  | no ne ↦ rw (ne→== p pc ne) refl
]

module _ {s t : State} {fuel : ℕ} {ends : Ptr → Ptr} {pages : List Ptr} {blocks : Ptr → List Block}
    {fl : List Ptr} {e : Payload} (i : HeapInv s fuel ends pages blocks fl)
    (w : Scribbled s e t) where
  block-HeapInv :
      (pc : Ptr)
      → has pc pages ≡ true
      → UsedAt e (pc + 32) (blocks pc)
      → HeapInv t fuel ends pages blocks fl
  block-HeapInv pc own u =
      let q = behind (pc + 32) u.front in
      let (is, h) =
        used-Hole u.front u.size u.back
          (subst (λ z. PageInv s fuel (view s ends pages fl) pc (ends pc) z fl) u.shape
            (i.page pc own))
          q refl (λ a k. cc k) in
      let large = IsBlock.large is in
      let place : e.place ≡ q + 16 = ap (λ (x : Payload). x.place) u.place in
      let room : e.room ≡ u.size - 32 = ap (λ (x : Payload). x.room) u.place in
      let same : (a : ℕ) → ((a < q + 16) ⊎ (q + u.size - 16 ≤ a)) → t.mem a ≡ s.mem a =
        λ a o. w.same a λ (low, high). omega (arith, place, room, o) in
      let head : t.free_list_head ≡ s.free_list_head =
        ap (λ (v : State). v.free_list_head) w.rest in
      let mapped : Mapped t.mem pc (ends pc) =
        λ a low high. let (v, m) = h.mapped a low high in w.mapped a v m in
      let h' =
        Hole-write h t (ap (λ (v : State). v.page_list_head) w.rest) head
          (w.rest ∙ ap (λ z. record s { mem = t.mem; free_list_head = z }) (sym head)) mapped
          (λ a out. w.same a λ (low, high). out (omega arith) (omega arith)) in
      let is' =
        IsBlock-frame s.mem t.mem q (block u.size true) is (same q (inl (omega arith)))
          (same (q + 8) (inl (omega arith))) (same (q + u.size - 16) (inr (omega arith))) in
      subst (λ z. HeapInv t fuel ends pages z fl) (put_blocks_same blocks pc _ u.shape)
        (HeapInv-update i own (Hole-used h' is'))

  -- a heap stays well-formed when one of its payloads is written to
  pub contents-HeapInv : Memᴰ e (live blocks pages) → HeapInv t fuel ends pages blocks fl
  contents-HeapInv m = let (pc, own, u) = used-page e blocks pages m in block-HeapInv pc own u
