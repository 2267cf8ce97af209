-- ===== src/Mm/Arena/Clear.antt =====
-- Bytes that are in no free block, no link and no page header: what mm.c does leaves them alone.
use uof_ufall.Base.{
  ℕ, ◌+◌, ◌%◌, ◌≤◌, ◌<◌, ◌≡◌, refl, Bool, true, false, List, [], ◌∷◌, ◌++◌, arith, ◌⊎◌, inl, inr,
  Bool-cases,
}
use uof_ufall.Machine.{Ptr, State, Memory}
use uof_ufall.Mm.Arena.{HeapInv, view}
use uof_ufall.Mm.Arena.Update.{PageInv-link}
use uof_ufall.Mm.Blocks.Footer.{PageList}
use uof_ufall.Mm.Heap.{Block, block, IsBlock, Tiles, Spared, KeepsPage, PageInv, frees, behind}
use uof_ufall.Mm.Heap.Keeps.{KeepsHole, KeepsPage-none, KeepsHole-none}
use uof_ufall.Mm.Heap.Page.{Hole, link-element}
use uof_ufall.Mm.Lists.Chain.{has, is_link}

-- the byte lies in no free block
abbrev pub SparedAt : ℕ → Ptr → List Block → Type 0
SparedAt a p [] = Unit
SparedAt a p (b ∷ bs) = (b.used ≡ false → (a < p) ⊎ (p + b.size ≤ a)) × SparedAt a (p + b.size) bs

pub Spared-at :
    (keep : ℕ → Bool) (p : Ptr) (bs : List Block)
    → Spared keep p bs
    → (a : ℕ) → keep a ≡ true
    → SparedAt a p bs
Spared-at keep p [] h a k = tt
Spared-at keep p (b ∷ bs) h a k = ((λ u. h.0 u a k), Spared-at keep (p + b.size) bs h.1 a k)

-- the bytes around a block that is free
pub SparedAt-mark :
    (a p n : ℕ) (xs ys : List Block)
    → SparedAt a p (xs ++ block n false ∷ ys)
    → SparedAt a p (xs ++ block n true ∷ ys) × ((a < behind p xs) ⊎ (behind p xs + n ≤ a))
SparedAt-mark a p n [] ys h = (((λ u. cc u), h.1), h.0 refl)
SparedAt-mark a p n (x ∷ xs) ys h =
    let (rest, out) = SparedAt-mark a (p + x.size) n xs ys h.1 in ((h.0, rest), out)

pub Spared-every :
    (keep : ℕ → Bool) (p : Ptr) (bs : List Block)
    → ((a : ℕ) → keep a ≡ true → SparedAt a p bs)
    → Spared keep p bs
Spared-every keep p [] h = tt
Spared-every keep p (b ∷ bs) h =
    ((λ u a k. (h a k).0 u), Spared-every keep (p + b.size) bs λ a k. (h a k).1)

-- blocks of these sizes fill the addresses from `p` to `end`
abbrev pub Sized : Ptr → Ptr → List Block → Type 0
Sized p end [] = p ≡ end
Sized p end (b ∷ bs) = (48 ≤ b.size) × Sized (p + b.size) end bs

pub Sized-mark :
    (p end n : ℕ) (xs ys : List Block)
    → Sized p end (xs ++ block n true ∷ ys)
    → Sized p end (xs ++ block n false ∷ ys)
Sized-mark p end n [] ys t = t
Sized-mark p end n (x ∷ xs) ys t = (t.0, Sized-mark (p + x.size) end n xs ys t.1)

pub Tiles-Sized : (m : Memory) (p end : Ptr) (bs : List Block) → Tiles m p end bs → Sized p end bs
Tiles-Sized m p end [] t = t
Tiles-Sized m p end (b ∷ bs) t = (IsBlock.large t.0, Tiles-Sized m (p + b.size) end bs t.1)

pub Sized-le : (p end : Ptr) (bs : List Block) → Sized p end bs → p ≤ end
Sized-le p end [] t = omega arith
Sized-le p end (b ∷ bs) t = omega (arith, Sized-le (p + b.size) end bs t.1)

pub SparedAt-below : (a p : ℕ) (bs : List Block) → a < p → SparedAt a p bs
SparedAt-below a p [] h = tt
SparedAt-below a p (b ∷ bs) h = ((λ u. inl h), SparedAt-below a (p + b.size) bs (omega arith))

pub SparedAt-above : (a p end : ℕ) (bs : List Block) → Sized p end bs → end ≤ a → SparedAt a p bs
SparedAt-above a p end [] t h = tt
SparedAt-above a p end (b ∷ bs) t h =
    let le = Sized-le (p + b.size) end bs t.1 in
    ((λ u. inr (omega arith)), SparedAt-above a (p + b.size) end bs t.1 h)

-- such a byte is no link of a free block
SparedAt-unlinked :
    (a p end : ℕ) (bs : List Block)
    → Sized p end bs
    → SparedAt a p bs
    → is_link a (frees p bs) ≡ false
SparedAt-unlinked a p end [] t h = refl
SparedAt-unlinked a p end (b ∷ bs) t h =
    let rest = SparedAt-unlinked a (p + b.size) end bs t.1 h.1 in ground (arith, h.0, t.0)

-- the bytes of `keep` are in no page's header and in no free block of a page
abbrev pub Clear : (ℕ → Bool) → List Ptr → (Ptr → List Block) → Type 0
Clear keep pages blocks =
    (p : Ptr)
    → has p pages ≡ true
    → (a : ℕ) → keep a ≡ true
    → ((a < p) ⊎ (p + 32 ≤ a)) × SparedAt a (p + 32) (blocks p)

-- so none is a link of the page list
pub Clear-links :
    (a : ℕ) (pages : List Ptr)
    → ((p : Ptr) → has p pages ≡ true → (a < p) ⊎ (p + 32 ≤ a))
    → is_link a pages ≡ false
Clear-links a [] h = refl
Clear-links a (p ∷ pages) h =
    let rest = Clear-links a pages λ q m. h q (ground arith) in ground (arith, h p (ground arith))

module _ {s : State} {fuel : ℕ} {ends : Ptr → Ptr} {pages : List Ptr} {blocks : Ptr → List Block}
    {fl : List Ptr} (i : HeapInv s fuel ends pages blocks fl) where
  pub heap-Sized : (p : Ptr) → has p pages ≡ true → Sized (p + 32) (ends p) (blocks p)
  heap-Sized p m = Tiles-Sized s.mem (p + 32) (ends p) (blocks p) (PageInv.tiles (i.page p m))

  module _ (keep : ℕ → Bool) (clear : Clear keep pages blocks) where
    -- none is a link of the free list
    pub Clear-unlinked : (a : ℕ) → keep a ≡ true → is_link a fl ≡ false
    Clear-unlinked a k = elim (Bool-cases (is_link a fl)) [
      | inr out ↦ out
      | inl link ↦
          let e = link-element a i.chain link in
          let (p, own, low, high) = i.owner e.element e.listed in
          let r = i.region p own in
          let end : ends p % 16 ≡ 0 = omega (arith, r.page_aligned, r.whole, r.below) in
          let place = e.place in
          let al = e.aligned in
          let own_link = PageInv-link a (i.page p own) end (ground arith) (ground arith) link in
          let out =
            SparedAt-unlinked a (p + 32) (ends p) (blocks p) (heap-Sized p own)
              (clear p own a k).1 in
          cc (own_link, out)
    ]

    pub Clear-KeepsPage :
        (pc : Ptr)
        → has pc pages ≡ true
        → KeepsPage s (record (view s ends pages fl) { keep = keep }) pc (blocks pc) fl
    Clear-KeepsPage pc own = record {
      kept = λ a k. refl;
      spared = Spared-every keep (pc + 32) (blocks pc) λ a k. (clear pc own a k).1;
      unlinked = Clear-unlinked;
    }

-- a page, and one with a region taken out, with other bytes to keep
module _ {s : State} {fuel : ℕ} {l : PageList} {pc end : Ptr} {fl : List Ptr}
    (keep : ℕ → Bool) where
  pub PageInv-keep :
      {bs : List Block}
      → PageInv s fuel l pc end bs fl
      → KeepsPage s (record l { keep = keep }) pc bs fl
      → PageInv s fuel (record l { keep = keep }) pc end bs fl
  PageInv-keep i k = record {
    here = record {
      listed = i.here.listed;
      enough = i.here.enough;
      ne_null = i.here.ne_null;
      page_end = i.here.page_end;
      word = i.here.word;
      found = i.here.found;
      apart = i.here.apart;
    };
    aligned = i.aligned;
    mapped = i.mapped;
    tiles = i.tiles;
    chain = i.chain;
    member = i.member;
    links = i.links;
    elsewhere = i.elsewhere;
    keeps = k;
  }

  pub Hole-keep :
      {xs : List Block} {q n : ℕ} {ys : List Block}
      → Hole s fuel l pc end xs q n ys fl
      → KeepsHole s (record l { keep = keep }) pc xs q n ys fl
      → Hole s fuel (record l { keep = keep }) pc end xs q n ys fl
  Hole-keep h k = record {
    here = record {
      listed = h.here.listed;
      enough = h.here.enough;
      ne_null = h.here.ne_null;
      page_end = h.here.page_end;
      word = h.here.word;
      found = h.here.found;
      apart = h.here.apart;
    };
    aligned = h.aligned;
    mapped = h.mapped;
    front = h.front;
    back = h.back;
    chain = h.chain;
    member = h.member;
    links = h.links;
    elsewhere = h.elsewhere;
    keeps = k;
  }

-- a page with nothing to keep
pub PageInv-forget :
    {s from : State} {fuel : ℕ} {ends : Ptr → Ptr} {pages : List Ptr} {pc end : Ptr}
    {bs : List Block} {free fl : List Ptr} {keep : ℕ → Bool}
    → PageInv s fuel (record (view from ends pages free) { keep = keep }) pc end bs fl
    → PageInv s fuel (view from ends pages free) pc end bs fl
PageInv-forget {pc} {bs} i = PageInv-keep (λ a. false) i (KeepsPage-none pc bs)

pub Hole-forget :
    {s from : State} {fuel : ℕ} {ends : Ptr → Ptr} {pages : List Ptr} {pc end : Ptr}
    {xs : List Block} {q n : ℕ} {ys : List Block} {free fl : List Ptr} {keep : ℕ → Bool}
    → Hole s fuel (record (view from ends pages free) { keep = keep }) pc end xs q n ys fl
    → Hole s fuel (view from ends pages free) pc end xs q n ys fl
Hole-forget {pc} {xs} {q} {n} {ys} h = Hole-keep (λ a. false) h (KeepsHole-none pc xs q n ys)
