-- ===== src/Mm/Heap/Region.antt =====
-- Work inside of the region that was taken out of a page: writing there, giving its front away as a
-- used block, and putting it back.
use uof_ufall.Base.{
  ◌⊎◌, ℕ, ◌+◌, ◌≤◌, ◌<◌, ◌≡◌, refl, true, ◌||◌, List, [], ◌∷◌, ◌++◌, arith, sym, ap, ◌∙◌,
}
use mathlib.Core.Bool.{or-false}
use uof_ufall.Machine.{Ptr, State}
use uof_ufall.Mm.Blocks.Elsewhere.{SameRest, Elsewhere-write}
use uof_ufall.Mm.Blocks.Fields.{Mapped}
use uof_ufall.Mm.Blocks.Footer.{PageList, PageAt, PageAt-frame}
use uof_ufall.Mm.Heap.{Block, block, IsBlock, Tiles, frees, behind, PageInv}
use uof_ufall.Mm.Heap.Page.{Hole, Hole-clear}
use uof_ufall.Mm.Heap.Keeps.{Spared-append, Spared-split}
use uof_ufall.Mm.Heap.Tiles.{
  Tiles-le, Tiles-append, Tiles-front, Tiles-back, Tiles-frame, frees-append,
}
use uof_ufall.Mm.Lists.Chain
use uof_ufall.Mm.Lists.Chain.{has, is_link}

module _ {s : State} {fuel : ℕ} {l : PageList} {pc end : Ptr} {xs : List Block} {q n : ℕ}
    {ys : List Block} {fl : List Ptr} (h : Hole s fuel l pc end xs q n ys fl) where
  pub Hole-start : pc + 32 ≤ q
  Hole-start = Tiles-le s.mem (pc + 32) q xs h.front

  pub Hole-end : q + n ≤ end
  Hole-end = Tiles-le s.mem (q + n) end ys h.back

  -- what happens inside of the region leaves all else in place
  pub Hole-write :
      (t : State)
      → t.page_list_head ≡ s.page_list_head
      → t.free_list_head ≡ s.free_list_head
      → SameRest s t
      → Mapped t.mem pc end
      → ((a : ℕ) → (q ≤ a → a < q + n → ⊥) → t.mem a ≡ s.mem a)
      → Hole t fuel l pc end xs q n ys fl
  Hole-write t heads head rest mapped same =
      let low = Hole-start in
      let high = Hole-end in
      record {
        here =
            PageAt-frame t h.here heads
              λ a w. same a λ low' high'. ground (arith, PageAt.apart h.here a);
        aligned = h.aligned;
        mapped = mapped;
        front =
            Tiles-frame s.mem t.mem (pc + 32) q xs h.front λ a low' high' o. same a (omega arith);
        back = Tiles-frame s.mem t.mem (q + n) end ys h.back λ a low' high' o. same a (omega arith);
        chain =
            rw head
              (Chain.frame h.chain λ a i. same a λ low' high'. ground (arith, Hole-clear h a));
        member = h.member;
        links = h.links;
        elsewhere = Elsewhere-write h.elsewhere t (λ a o. same a λ low' high'. ground arith) rest;
        keeps = record {
          kept =
              λ a k. same a (λ low' high'. ground (arith, h.keeps.outside a k)) ∙ h.keeps.kept a k;
          front = h.keeps.front;
          back = h.keeps.back;
          outside = h.keeps.outside;
          unlinked = h.keeps.unlinked;
        };
      }

  -- the region as one used block
  pub Hole-used :
      IsBlock s.mem q (block n true) → PageInv s fuel l pc end (xs ++ block n true ∷ ys) fl
  Hole-used is = record {
    here = h.here;
    aligned = h.aligned;
    mapped = h.mapped;
    tiles = Tiles-append s.mem (pc + 32) q end xs (block n true ∷ ys) h.front (is, h.back);
    chain = h.chain;
    member = λ a low high.
        h.member a low high ∙ sym (frees-append s.mem (pc + 32) q xs (block n true ∷ ys) a h.front);
    links = h.links;
    elsewhere = h.elsewhere;
    keeps = record {
      kept = h.keeps.kept;
      spared =
          Spared-append l.keep s.mem (pc + 32) q xs (block n true ∷ ys) h.front h.keeps.front
            ((λ u. cc u), h.keeps.back);
      unlinked = h.keeps.unlinked;
    };
  }

  -- a used block may be given away from the front of the region
  pub Hole-front :
      (k rest : ℕ)
      → k + rest ≡ n
      → IsBlock s.mem q (block k true)
      → Hole s fuel l pc end (xs ++ block k true ∷ []) (q + k) rest ys fl
  Hole-front k rest e is =
      let e' : q + k + rest ≡ q + n = omega arith in
      record {
        here = h.here;
        aligned = h.aligned;
        mapped = h.mapped;
        front = Tiles-append s.mem (pc + 32) q (q + k) xs (block k true ∷ []) h.front (is, refl);
        back = rw e' h.back;
        chain = h.chain;
        member = λ a low high. rw e' (
            h.member a low high
            ∙ ap (λ b. b || has a (frees (q + n) ys))
                (sym (
                  frees-append s.mem (pc + 32) q xs (block k true ∷ []) a h.front
                  ∙ or-false (has a (frees (pc + 32) xs)))));
        links = h.links;
        elsewhere = h.elsewhere;
        keeps = record {
          kept = h.keeps.kept;
          front =
              Spared-append l.keep s.mem (pc + 32) q xs (block k true ∷ []) h.front h.keeps.front
                ((λ u. cc u), tt);
          back = rw e' h.keeps.back;
          outside = λ a o. ground (arith, h.keeps.outside a o);
          unlinked = h.keeps.unlinked;
        };
      }

module _ {s : State} {fuel : ℕ} {l : PageList} {pc end : Ptr} (xs : List Block) (n : ℕ)
    (ys : List Block) {fl : List Ptr}
    (i : PageInv s fuel l pc end (xs ++ block n true ∷ ys) fl) where
  -- a used block may be taken out of its page, with all its words
  pub used-Hole :
      (q : ℕ)
      → q ≡ behind (pc + 32) xs
      → ((a : ℕ) → l.keep a ≡ true → (a < q) ⊎ (q + n ≤ a))
      → IsBlock s.mem q (block n true) × Hole s fuel l pc end xs q n ys fl
  used-Hole q e outside =
      let front : Tiles s.mem (pc + 32) q xs =
        rw e (Tiles-front s.mem (pc + 32) end xs _ i.tiles) in
      let back : Tiles s.mem q end (block n true ∷ ys) =
        rw e (Tiles-back s.mem (pc + 32) end xs _ i.tiles) in
      (
        back.0,
        record {
          here = i.here;
          aligned = i.aligned;
          mapped = i.mapped;
          front = front;
          back = back.1;
          chain = i.chain;
          member = λ a low high.
              i.member a low high ∙ frees-append s.mem (pc + 32) q xs (block n true ∷ ys) a front;
          links = i.links;
          elsewhere = i.elsewhere;
          keeps =
              let (before, after) =
                Spared-split l.keep (pc + 32) xs (block n true ∷ ys) i.keeps.spared in
              record {
                kept = i.keeps.kept;
                front = before;
                back = rw e after.1;
                outside = outside;
                unlinked = i.keeps.unlinked;
              };
        },
      )
