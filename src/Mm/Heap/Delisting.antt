-- ===== src/Mm/Heap/Delisting.antt =====
-- Taking a free block off the list: `remove_free_block` inside of a page.
use uof_ufall.Base.{
  refl, ℕ, ◌+◌, ◌%◌, ◌≤◌, ◌<◌, ◌≡◌, true, false, ◌||◌, ◌==◌, List, [], ◌∷◌, ◌++◌, arith, ap, ◌∙◌,
  some, inl, inr, ◌⊎◌, Bool-cases,
}
use uof_ufall.Machine.{Ptr, null, State}
use uof_ufall.Machine.Returns
use uof_ufall.Machine.Returns.{Returns}
use uof_ufall.Mm.Blocks.Elsewhere.{Outside, Elsewhere, Elsewhere-relist}
use uof_ufall.Mm.Blocks.Fields.{Mapped}
use uof_ufall.Mm.Blocks.Footer.{PageList, PageAt}
use uof_ufall.Mm.Heap.{Block, block, IsBlock, Tiles, Spared, frees, behind, PageInv}
use uof_ufall.Mm.Heap.Keeps.{KeepsHole, Spared-split}
use uof_ufall.Mm.Heap.Page.{Hole, link-element, Chain-mapped}
use uof_ufall.Mm.Heap.Relist.{Place, relist-here, relist-front, relist-back, relist-word}
use uof_ufall.Mm.Heap.Tiles.{Tiles-le, Tiles-front, Tiles-back, frees-append, has-bounds}
use uof_ufall.Mm.Lists.{remove_free_block}
use uof_ufall.Mm.Lists.Chain.{Chain, has, is_link}
use uof_ufall.Mm.Lists.Chunk.{is_page_word}
use uof_ufall.Mm.Lists.Insert.{FreeListIs}
use uof_ufall.Mm.Lists.Around.{link_of_mem, has-append, is_link-append, around}
use uof_ufall.Mm.Lists.Remove.{remove-Chain}

-- a region that is out of the tiling, while the payload `r` in it is still on the list
pub record Listed (s : State) (fuel : ℕ) (l : PageList) (pc end : Ptr) (xs : List Block) (q n : ℕ)
    (ys : List Block) (r : Ptr) (fl : List Ptr) : Type 0 where
  pub here : PageAt s fuel l pc end
  pub aligned : pc % 16 ≡ 0
  pub mapped : Mapped s.mem pc end
  pub front : Tiles s.mem (pc + 32) q xs
  pub back : Tiles s.mem (q + n) end ys
  pub chain : Chain s.mem null s.free_list_head fl
  pub low : q + 16 ≤ r
  pub high : r + 32 ≤ q + n
  pub member :
      (a : ℕ)
      → pc ≤ a
      → a < end
      → has a fl ≡ (has a (frees (pc + 32) xs) || ((a == r) || has a (frees (q + n) ys)))
  pub links : (a : ℕ) → is_link a fl ≡ true → is_page_word a l.pages ≡ false
  pub elsewhere : Elsewhere l.from l.free (pc + 32) end s fl
  pub keeps : KeepsHole s l pc xs q n ys fl

module _ {s : State} {fuel : ℕ} {l : PageList} {pc end : Ptr} {xs : List Block} {q n : ℕ}
    {ys : List Block} (r : Ptr) (us vs : List Ptr)
    (h : Listed s fuel l pc end xs q n ys r (us ++ r ∷ vs)) where
  touch :
      (a : ℕ)
      → pc ≤ a
      → a < end
      → is_link a (us ++ r ∷ vs) ≡ true
      → Place a (pc + 32) xs (q + n) ys r
  touch a lo hi i =
      let k = link-element a h.chain i in
      ground (
        arith,
        h.aligned,
        k.place,
        k.aligned,
        k.listed,
        h.member k.element,
        link_of_mem k.element (frees (pc + 32) xs),
        link_of_mem k.element (frees (q + n) ys),
      )

  -- the block occurs once on the list
  apart : (has r us ≡ false) × (has r vs ≡ false) × (r % 16 ≡ 0)
  apart = let (next, k) = around us h.chain in (k.out, k.out', k.el.aligned)

  inside : (a : ℕ) → Outside a (pc + 32) end → ((a == r) ≡ false) × ((a == r + 8) ≡ false)
  inside a o =
      let start = Tiles-le s.mem (pc + 32) q xs h.front in
      let stop = Tiles-le s.mem (q + n) end ys h.back in ground (arith, h.low, h.high)

  pub Listed-delisted :
      (t : State)
      → FreeListIs s (us ++ vs) (us ++ r ∷ vs) t
      → t.mem r ≡ some null
      → t.mem (r + 8) ≡ some null
      → Hole t fuel l pc end xs q n ys (us ++ vs)
  Listed-delisted t f e e8 =
      let heads : t.page_list_head ≡ s.page_list_head =
        ap (λ (u : State). u.page_list_head) f.rest in
      let front =
        relist-front xs q n ys h.here h.front h.back r h.low h.high t (us ++ r ∷ vs) f.same heads
          touch h.links in
      let back =
        relist-back xs q n ys h.here h.front h.back r h.low h.high t (us ++ r ∷ vs) f.same heads
          touch h.links in
      record {
        here =
            relist-here xs q n ys h.here h.front h.back r h.low h.high t (us ++ r ∷ vs) f.same heads
              touch h.links;
        aligned = h.aligned;
        mapped = λ a lo hi. elim (Bool-cases (is_link a (us ++ vs))) [
          | inl i ↦ Chain-mapped a f.chain i
          | inr o ↦ elim (Bool-cases (is_link a (us ++ r ∷ vs))) [
            | inl own ↦ (null, ground (arith, is_link-append a us vs, is_link-append a us (r ∷ vs)))
            | inr out ↦ let (v, k) = h.mapped a lo hi in (v, f.same a out ∙ k)
          ]
        ];
        front = front;
        back = back;
        chain = f.chain;
        member = λ a lo hi. ground (
          arith,
          h.member a lo hi,
          has-append a us vs,
          has-append a us (r ∷ vs),
          apart,
          h.low,
          h.high,
          has-bounds s.mem (pc + 32) q xs a h.front,
          has-bounds s.mem (q + n) end ys a h.back,
        );
        links =
            λ a i. ground (arith, h.links a, is_link-append a us vs, is_link-append a us (r ∷ vs));
        elsewhere =
            Elsewhere-relist h.elsewhere t (us ++ r ∷ vs) (us ++ vs) f.same (λ a o. refl)
              (λ a o. ground (arith, inside a o, has-append a us vs, has-append a us (r ∷ vs)))
              (λ a o.
                ground (arith, inside a o, is_link-append a us vs, is_link-append a us (r ∷ vs)))
              f.rest;
        keeps = record {
          kept = λ a k. f.same a (h.keeps.unlinked a k) ∙ h.keeps.kept a k;
          front = h.keeps.front;
          back = h.keeps.back;
          outside = h.keeps.outside;
          unlinked = λ a k.
              ground
                (arith, h.keeps.unlinked a k, is_link-append a us vs, is_link-append a us (r ∷ vs));
        };
      }

  -- the words of the region around the payload's first two stay
  Listed-words :
      (t : State)
      → FreeListIs s (us ++ vs) (us ++ r ∷ vs) t
      → (a : ℕ) → q ≤ a
      → a < q + n
      → ((a < r) ⊎ (r + 16 ≤ a))
      → t.mem a ≡ s.mem a
  Listed-words t f =
      relist-word xs q n ys h.here h.front h.back r h.low h.high t (us ++ r ∷ vs) f.same
        (ap (λ (u : State). u.page_list_head) f.rest) touch h.links

  -- Removing a listed payload `r` leaves the region around it to the caller: the page on both sides
  -- is as it was, the payload is off the free list, whose other blocks stay in their order, and the
  -- region's words other than the payload's two links are not written.
  pub remove-Hole :
      Returns
        (λ _ t.
          Hole t fuel l pc end xs q n ys (us ++ vs)
          × ((a : ℕ) → q ≤ a → a < q + n → ((a < r) ⊎ (r + 16 ≤ a)) → t.mem a ≡ s.mem a)
          × FreeListIs s (us ++ vs) (us ++ r ∷ vs) t)
        (remove_free_block r s)
  remove-Hole =
      Returns.mono (remove-Chain s us vs r h.chain)
        λ _ t (f, e, e8). (Listed-delisted t f e e8, Listed-words t f, f)

module _ {s : State} {fuel : ℕ} {l : PageList} {pc end : Ptr} where
  -- a free block of a page
  pub free-Listed :
      (xs : List Block) (n : ℕ) (ys : List Block) {fl : List Ptr} (q : ℕ)
      → PageInv s fuel l pc end (xs ++ block n false ∷ ys) fl
      → q ≡ behind (pc + 32) xs
      → IsBlock s.mem q (block n false) × Listed s fuel l pc end xs q n ys (q + 16) fl
  free-Listed xs n ys q i e =
      let front : Tiles s.mem (pc + 32) q xs =
        rw e (Tiles-front s.mem (pc + 32) end xs _ i.tiles) in
      let back : Tiles s.mem q end (block n false ∷ ys) =
        rw e (Tiles-back s.mem (pc + 32) end xs _ i.tiles) in
      (
        back.0,
        record {
          here = i.here;
          aligned = i.aligned;
          mapped = i.mapped;
          front = front;
          back = back.1;
          chain = i.chain;
          low = omega arith;
          high = omega (arith, IsBlock.large back.0);
          member = λ a low high.
              i.member a low high ∙ frees-append s.mem (pc + 32) q xs (block n false ∷ ys) a front;
          links = i.links;
          elsewhere = i.elsewhere;
          keeps =
              let (before, after) =
                Spared-split l.keep (pc + 32) xs (block n false ∷ ys) i.keeps.spared in
              let here : Spared l.keep q (block n false ∷ ys) = rw e after in
              record {
                kept = i.keeps.kept;
                front = before;
                back = here.1;
                outside = here.0 refl;
                unlinked = i.keeps.unlinked;
              };
        },
      )

  -- a free block behind the region joins it
  pub next-Listed :
      {xs : List Block} {q n : ℕ} (k : ℕ) {ys : List Block} {fl : List Ptr}
      → Hole s fuel l pc end xs q n (block k false ∷ ys) fl
      → Listed s fuel l pc end xs q (n + k) ys (q + n + 16) fl
  next-Listed {xs} {q} {n} k {ys} h =
      let e : q + n + k ≡ q + (n + k) = omega arith in
      record {
        here = h.here;
        aligned = h.aligned;
        mapped = h.mapped;
        front = h.front;
        back = rw e at h.back.1;
        chain = h.chain;
        low = omega arith;
        high = omega (arith, IsBlock.large h.back.0);
        member = λ a low high. rw (← e) (h.member a low high);
        links = h.links;
        elsewhere = h.elsewhere;
        keeps = record {
          kept = h.keeps.kept;
          front = h.keeps.front;
          back = rw e at h.keeps.back.1;
          outside = λ a o. ground (arith, h.keeps.outside a o, h.keeps.back.0 refl a o);
          unlinked = h.keeps.unlinked;
        };
      }

  -- and so does one in front of it
  pub prev-Listed :
      (xs : List Block) (k q n : ℕ) {ys : List Block} {fl : List Ptr} (p : ℕ)
      → Hole s fuel l pc end (xs ++ block k false ∷ []) q n ys fl
      → p ≡ behind (pc + 32) xs
      → (p + k ≡ q)
        × IsBlock s.mem p (block k false)
        × Listed s fuel l pc end xs p (k + n) ys (p + 16) fl
  prev-Listed xs k q n {ys} p h e =
      let front : Tiles s.mem (pc + 32) p xs = rw e (Tiles-front s.mem (pc + 32) q xs _ h.front) in
      let last : Tiles s.mem p q (block k false ∷ []) =
        rw e (Tiles-back s.mem (pc + 32) q xs _ h.front) in
      let e' : q + n ≡ p + (k + n) = omega arith in
      (
        last.1,
        last.0,
        record {
          here = h.here;
          aligned = h.aligned;
          mapped = h.mapped;
          front = front;
          back = rw (← e') h.back;
          chain = h.chain;
          low = omega arith;
          high = omega (arith, IsBlock.large last.0);
          member = λ a low high. ground (
            arith,
            h.member a low high,
            frees-append s.mem (pc + 32) p xs (block k false ∷ []) a front,
            e',
          );
          links = h.links;
          elsewhere = h.elsewhere;
          keeps =
              let (before, after) =
                Spared-split l.keep (pc + 32) xs (block k false ∷ []) h.keeps.front in
              let here : Spared l.keep p (block k false ∷ []) = rw e after in
              let joins = last.1 in
              record {
                kept = h.keeps.kept;
                front = before;
                back = rw (← e') h.keeps.back;
                outside = λ a o. ground (arith, h.keeps.outside a o, here.0 refl a o, joins);
                unlinked = h.keeps.unlinked;
              };
        },
      )
